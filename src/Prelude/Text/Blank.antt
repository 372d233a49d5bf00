-- ===== src/Prelude/Text/Blank.antt =====
-- A text that `strings.TrimSpace` makes empty is one of spaces only.
use Prim.Native.String.{String}
use Prim.Native.Char.{code}
use mathlib.Core.Path.{◌≡◌, refl, ap, ◌∙◌, subst}
use mathlib.Core.Logic.{inl, inr}
use mathlib.Core.Bool.{true, false, ◌&&◌}
use native.Mathlib.Omega.{arith}
use text.Mathlib.Text.{◌==◌}
use text.Mathlib.TextEquality.{eq_iff}
use agents_coworkers.Prelude.Tests.{if-intro, Bool-cases}
use agents_coworkers.Prelude.Text.{is_space, is_blank, skip_spaces_of, drop_spaces_of, trim_space}

skip_lem : (s : String) → is_blank (skip_spaces_of s) ≡ is_blank s
unfolding is_blank
skip_lem String.[] = refl
skip_lem (String.◌∷◌ c s) =
    if-intro (λ t. is_blank t ≡ (is_space (code c) && is_blank s)) (is_space (code c))
      (λ e. rw e (skip_lem s)) (λ e. refl)

drop_lem : (s : String) → is_blank (drop_spaces_of s) ≡ is_blank s
unfolding is_blank
drop_lem String.[] = refl
drop_lem (String.◌∷◌ c s) =
    if-intro (λ t. is_blank t ≡ (is_space (code c) && is_blank s))
      (is_space (code c) && drop_spaces_of s == "")
      (λ e.
        let space : is_space (code c) ≡ true = ground (arith, e) in
        let end : drop_spaces_of s ≡ "" = (eq_iff _ "").0 (ground (arith, e)) in
        rw space (subst (λ t. is_blank t ≡ is_blank s) end (drop_lem s)))
      (λ e. ap (λ b. is_space (code c) && b) (drop_lem s))

trimmed_blank : (s : String) → is_blank (trim_space s) ≡ is_blank s
unfolding trim_space
trimmed_blank s = drop_lem (skip_spaces_of s) ∙ skip_lem s

skip_blank : (s : String) → is_blank s ≡ true → skip_spaces_of s ≡ ""
unfolding is_blank
skip_blank String.[] h = refl
skip_blank (String.◌∷◌ c s) h =
    let space : is_space (code c) ≡ true = ground (arith, h) in
    rw space (skip_blank s (ground (arith, h)))

-- A text that is not empty when it is trimmed has a character that is no space.
pub trim_space-is_blank : (s : String) → (trim_space s == "") ≡ false → is_blank s ≡ false
unfolding trim_space
trim_space-is_blank s h = elim (Bool-cases (is_blank s)) [
  | inr e ↦ e
  | inl e ↦ absurd (cc (ap (λ t. drop_spaces_of t == "") (skip_blank s e)))
]

-- And so has the trimmed text.
pub is_blank-trim_space :
    (s : String) → (trim_space s == "") ≡ false → is_blank (trim_space s) ≡ false
is_blank-trim_space s h = trimmed_blank s ∙ trim_space-is_blank s h
