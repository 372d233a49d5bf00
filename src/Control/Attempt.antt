-- ===== src/Control/Attempt.antt =====
-- internal/workforce/control: the part of a command that may return early with an exit code. A
-- `return nil, code` is `exits code`, and what follows a check is bound to it.
use agents_coworkers.Prelude.{
  ℕ, ◌≡◌, refl, ◌⊎◌, inl, inr, true, not, String, Option, none, some, List, nat_eq, if◌then◌else◌,
  if-intro, arith,
}
use agents_coworkers.Recovery.Errors.{Error, Result, ok, err}
use agents_coworkers.Control.Checks.{Check, first_failure, Passes, first_failure-Passes}
use agents_coworkers.Control.Discovery.{
  Discovery, found, missing, kind_code, validation, unavailable, Answer, no_request, no_connection,
  answered,
}

pub data Attempt (A : Type 0) : Type 0 where
  done : A → Attempt A
  exits : ℕ → Attempt A

infixl 20 ◌>>=◌
abbrev pub ◌>>=◌ : {A B : Type 0} → Attempt A → (A → Attempt B) → Attempt B
done a >>= f = f a
exits c >>= f = exits c

infixl 20 ◌>>◌
abbrev pub ◌>>◌ : {B : Type 0} → Attempt (Unit {0}) → Attempt B → Attempt B
m >> k = m >>= λ _. k

abbrev pub judge_checks : Option Error → Attempt (Unit {0})
judge_checks none = done tt
judge_checks (some x) = exits 2

-- A sequence of `if failed { return nil, ExitCodeValidation }`.
abbrev pub require : List Check → Attempt (Unit {0})
require l = judge_checks (first_failure l)

abbrev pub succeed : {A : Type 0} → Result A → Attempt A
succeed (ok a) = done a
succeed (err x) = exits 2

abbrev pub discover : {A : Type 0} → Discovery A → Attempt A
discover (found a) = done a
discover (missing k) = exits (kind_code k)

abbrev pub decoded : {A : Type 0} → Option A → Attempt A
decoded none = exits 2
decoded (some a) = done a

-- A GET whose answer must have status 200 and a body that decodes.
abbrev pub fetch : {A : Type 0} → (String → Option A) → Answer → Attempt A
fetch f no_request = exits 2
fetch f no_connection = exits 3
fetch f (answered status none) = exits 2
fetch f (answered status (some body)) =
    if not (nat_eq status 200) then exits 2 else decoded (f body)

-- The code of an early return, or `P` of the result.
abbrev pub Ends : {A : Type 0} → (A → Type 0) → Attempt A → Type 0
Ends P (done a) = P a
Ends P (exits c) = (c ≡ 2) ⊎ (c ≡ 3)

-- Where a part ends with `P`, the rest is looked at with `P`.
pub bind-Ends :
    {A B : Type 0} (P : A → Type 0) (Q : B → Type 0) (x : Attempt A) (f : A → Attempt B)
    → Ends P x
    → ((a : A) → P a → Ends Q (f a))
    → Ends Q (x >>= f)
bind-Ends P Q (done a) f e k = k a e
bind-Ends P Q (exits c) f e k = e

require-Ends : (l : List Check) → Ends (λ a. Passes l) (require l)
require-Ends l = judged (first_failure l) refl
  where
    judged : (o : Option Error) → first_failure l ≡ o → Ends (λ a. Passes l) (judge_checks o)
    judged none e = first_failure-Passes l e
    judged (some x) e = inl refl

succeed-Ends : {A : Type 0} (r : Result A) → Ends (λ a. r ≡ ok a) (succeed r)
succeed-Ends (ok a) = refl
succeed-Ends (err x) = inl refl

discover-Ends : {A : Type 0} (r : Discovery A) → Ends (λ a. r ≡ found a) (discover r)
discover-Ends (found a) = refl
discover-Ends (missing validation) = inl refl
discover-Ends (missing unavailable) = inr refl

decoded-Ends : {A : Type 0} (o : Option A) → Ends (λ a. o ≡ some a) (decoded o)
decoded-Ends none = inl refl
decoded-Ends (some a) = refl

-- The body of the answer is decoded.
abbrev pub Fetched : {A : Type 0} → (String → Option A) → A → Answer → Type 0
Fetched f a no_request = ⊥
Fetched f a no_connection = ⊥
Fetched f a (answered status none) = ⊥
Fetched f a (answered status (some body)) = (nat_eq status 200 ≡ true) × (f body ≡ some a)

fetch-Ends :
    {A : Type 0} (f : String → Option A) (r : Answer) → Ends (λ a. Fetched f a r) (fetch f r)
fetch-Ends f no_request = inl refl
fetch-Ends f no_connection = inr refl
fetch-Ends f (answered status none) = inl refl
fetch-Ends {A} f (answered status (some body)) =
    if-intro (Ends (λ a. Fetched f a (answered status (some body)))) (not (nat_eq status 200))
      (λ _. inl refl) (λ e. read (f body) refl (ground (arith, e)))
  where
    read :
        (o : Option A)
        → f body ≡ o
        → nat_eq status 200 ≡ true
        → Ends (λ a. Fetched f a (answered status (some body))) (decoded o)
    read none e s = inl refl
    read (some a) e s = (s, e)

-- An attempt that ends with its checks.
pub last_checks : (P : Type 0) (l : List Check) → (Passes l → P) → Ends (λ _. P) (require l)
last_checks P l f =
    elim (require l) as (λ a. Ends (λ _. Passes l) a → Ends (λ _. P) a) [
      | done t ↦ λ p. f p
      | exits c ↦ λ e. e
    ]
      (require-Ends l)

-- The rest of an attempt, behind each of the parts above.
pub after_checks :
    {B : Type 0} (Q : B → Type 0) (l : List Check) (k : Attempt B)
    → (Passes l → Ends Q k)
    → Ends Q (require l >> k)
after_checks Q l k f = bind-Ends (λ _. Passes l) Q (require l) (λ _. k) (require-Ends l) (λ _. f)

module _ {A B : Type 0} (Q : B → Type 0) where
  pub after_result :
      (r : Result A) (f : A → Attempt B)
      → ((a : A) → r ≡ ok a → Ends Q (f a))
      → Ends Q (succeed r >>= f)
  after_result r f k = bind-Ends (λ a. r ≡ ok a) Q (succeed r) f (succeed-Ends r) k

  pub after_discovery :
      (r : Discovery A) (f : A → Attempt B)
      → ((a : A) → r ≡ found a → Ends Q (f a))
      → Ends Q (discover r >>= f)
  after_discovery r f k = bind-Ends (λ a. r ≡ found a) Q (discover r) f (discover-Ends r) k

  pub after_option :
      (r : Option A) (f : A → Attempt B)
      → ((a : A) → r ≡ some a → Ends Q (f a))
      → Ends Q (decoded r >>= f)
  after_option r f k = bind-Ends (λ a. r ≡ some a) Q (decoded r) f (decoded-Ends r) k

  pub after_fetch :
      (g : String → Option A) (r : Answer) (f : A → Attempt B)
      → ((a : A) → Fetched g a r → Ends Q (f a))
      → Ends Q (fetch g r >>= f)
  after_fetch g r f k = bind-Ends (λ a. Fetched g a r) Q (fetch g r) f (fetch-Ends g r) k
