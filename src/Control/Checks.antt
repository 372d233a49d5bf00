-- ===== src/Control/Checks.antt =====
-- A Go function that is a sequence of `if … { return err }` is a list of its tests with their
-- errors, which the first test that holds decides.
use agents_coworkers.Prelude.{
  ◌≡◌, refl, Bool, true, false, String, ◌==◌, eq_iff, not, ◌||◌, arith, subst, Option, none, some,
  List, [], ◌∷◌, ◌++◌, if◌then◌else◌, any, Bool-cases, inl, inr, sym,
}
use mathlib.Core.List.{Memᴰ}
use agents_coworkers.Recovery.Errors.{Error, other, Result, ok, err}

-- The proofs of a list of facts, one after another.
abbrev pub ◌▸◌ {ℓ κ} : {A : Type ℓ} {B : Type κ} → A → B → A × B
◌▸◌ a b = (a, b)

infixr 5 ◌▸◌
abbrev pub Check : Type 0
Check = Bool × String

unfoldable pub first_failure : List Check → Option Error
first_failure [] = none
first_failure ((failed, text) ∷ checks) =
    let rest = first_failure checks in if failed then some (other text) else rest

-- No test holds.
abbrev pub Passes : List Check → Type 0
Passes [] = Unit
Passes ((failed, text) ∷ checks) = (failed ≡ false) × Passes checks

pub first_failure-Passes : (l : List Check) → first_failure l ≡ none → Passes l
unfolding first_failure
first_failure-Passes [] h = tt
first_failure-Passes ((true, text) ∷ l) h = absurd (cc)
first_failure-Passes ((false, text) ∷ l) h = (refl, first_failure-Passes l h)

pub Passes-first_failure : (l : List Check) → Passes l → first_failure l ≡ none
unfolding first_failure
Passes-first_failure [] h = refl
Passes-first_failure ((true, text) ∷ l) (h, r) = absurd (cc)
Passes-first_failure ((false, text) ∷ l) (h, r) = Passes-first_failure l r

pub Passes-append : (l k : List Check) → Passes (l ++ k) → Passes l × Passes k
Passes-append [] k p = (tt, p)
Passes-append ((failed, text) ∷ l) k (h, p) = let (q, r) = Passes-append l k p in ((h, q), r)

pub append-Passes : (l k : List Check) → Passes l → Passes k → Passes (l ++ k)
append-Passes [] k p q = q
append-Passes ((failed, text) ∷ l) k (h, p) q = (h, append-Passes l k p q)

-- What a failed test of a difference, or of two failures, has established.
pub same : (a b : String) → not (a == b) ≡ false → a ≡ b
same a b h = (eq_iff a b).0 (ground (arith, h))

pub holds : (b : Bool) → not b ≡ false → b ≡ true
holds b h = ground (arith, h)

pub neither : (a b : Bool) → (a || b) ≡ false → (a ≡ false) × (b ≡ false)
neither a b h = ground (arith, h)

-- `P` of a result, if it is no error.
abbrev pub Accepts : {A : Type 0} → (A → Type 0) → Result A → Type 0
Accepts P (err x) = Unit
Accepts P (ok a) = P a

pub Accepts-elim :
    {A : Type 0} (P : A → Type 0) (r : Result A) (a : A) → Accepts P r → r ≡ ok a → P a
Accepts-elim P (err x) a p e = absurd (cc)
Accepts-elim P (ok b) a p e = let same_value : b ≡ a = cc in subst P same_value p

pub Accepts-map :
    {A : Type 0} (P Q : A → Type 0) (r : Result A)
    → ((a : A) → P a → Q a)
    → Accepts P r
    → Accepts Q r
Accepts-map P Q (err x) f p = tt
Accepts-map P Q (ok a) f p = f a p

pub any_same : (a : String) (l : List String) → any (λ x. x == a) l ≡ true → Memᴰ a l
any_same a [] h = absurd (cc)
any_same a (x ∷ l) h = elim (Bool-cases (x == a)) [
  | inl e ↦ Memᴰ.head (sym ((eq_iff x a).0 e))
  | inr e ↦ Memᴰ.tail (any_same a l (ground (arith, h, e)))
]
