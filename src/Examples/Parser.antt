-- ===== src/Examples/Parser.antt =====
-- An URL parser that tells texts with a character other than a space and a slash from the others, as
-- a parameter of internal/workforce/control.
use Prim.Native.Char.{code}
use agents_coworkers.Prelude.{
  ℕ, ◌≡◌, refl, ap, subst, sym, ◌∙◌, Bool, true, false, ◌&&◌, ◌||◌, not, String, ◌==◌, eq_iff,
  Option, none, some, inl, inr, List, [], ◌∷◌, is_nil, nat_eq, if◌then◌else◌, if-intro,
  option-intro, arith, Bool-cases,
}
use agents_coworkers.Prelude.Text.{
  trim_slashes, codes, is_space, skip_spaces, drop_spaces, before_spaces, trim, same_codes, lower,
}
use agents_coworkers.Control.Checks.{first_failure}
use agents_coworkers.Control.Loopback.{Url, check_url, validate_loopback_url}
use agents_coworkers.Control.Discovery.{}
use agents_coworkers.Examples.Documents.{local}

abbrev pub has_text : List ℕ → Bool
has_text [] = false
has_text (c ∷ cs) = (not (is_space c) && not (nat_eq c 47)) || has_text cs

abbrev pub parse_url : List ℕ → Option Url
parse_url cs = if has_text cs then some local else none

skip_text : (cs : List ℕ) → has_text (skip_spaces cs) ≡ has_text cs
skip_text [] = refl
skip_text (c ∷ cs) =
    if-intro (λ l. has_text l ≡ has_text (c ∷ cs)) (is_space c)
      (λ e. let rest = skip_text cs in ground (arith, e, rest)) (λ e. refl)

drop_text : (cs : List ℕ) → has_text (drop_spaces cs) ≡ has_text cs
drop_text [] = refl
drop_text (c ∷ cs) =
    before c (drop_spaces cs)
    ∙ ap (λ b. (not (is_space c) && not (nat_eq c 47)) || b) (drop_text cs)
  where
    before : (c : ℕ) (l : List ℕ) → has_text (before_spaces c l) ≡ has_text (c ∷ l)
    before c [] =
        if-intro (λ l. has_text l ≡ has_text (c ∷ [])) (is_space c && true) (λ e. ground (arith, e))
          (λ e. refl)
    before c (d ∷ l) =
        if-intro (λ k. has_text k ≡ has_text (c ∷ d ∷ l)) (is_space c && false)
          (λ e. absurd (ground (arith, e))) (λ e. refl)

trim_text_lem : (cs : List ℕ) → has_text (trim cs) ≡ has_text cs
unfolding trim
trim_text_lem cs = drop_text (skip_spaces cs) ∙ skip_text cs

slashes_text : (s : String) → has_text (codes (trim_slashes s)) ≡ has_text (codes s)
unfolding trim_slashes
slashes_text String.[] = refl
slashes_text (String.◌∷◌ c s) =
    if-intro (λ t. has_text (codes t) ≡ has_text (codes (String.◌∷◌ c s)))
      (nat_eq (code c) 47 && trim_slashes s == "")
      (λ e.
        let end : trim_slashes s ≡ "" = (eq_iff _ "").0 (ground (arith, e)) in
        let rest = subst (λ t. has_text (codes t) ≡ has_text (codes s)) end (slashes_text s) in
        ground (arith, e, rest))
      (λ e. ap (λ b. (not (is_space (code c)) && not (nat_eq (code c) 47)) || b) (slashes_text s))

local_lem : check_url local ≡ none
unfolding check_url first_failure same_codes lower
local_lem = refl

text_no_nil : (l : List ℕ) → has_text l ≡ true → is_nil l ≡ true → ⊥
text_no_nil [] h e = cc
text_no_nil (c ∷ l) h e = cc

parsed_local : (l : List ℕ) → has_text l ≡ true → parse_url l ≡ some local
parsed_local l h = rw h refl

-- An URL with such a character is valid, and no other one.
pub text-valid : (s : String) → has_text (codes s) ≡ true → validate_loopback_url parse_url s ≡ none
unfolding validate_loopback_url
text-valid s h =
    let text : has_text (trim (codes s)) ≡ true = trim_text_lem (codes s) ∙ h in
    if-intro (λ r. r ≡ none) (is_nil (trim (codes s)))
      (λ e. absurd (text_no_nil (trim (codes s)) text e))
      λ _.
        option-intro (λ r. r ≡ none) (parse_url (trim (codes s)))
          (λ e. absurd (cc (parsed_local (trim (codes s)) text)))
          λ u e.
            let same_url : local ≡ u = cc (parsed_local (trim (codes s)) text) in
            subst (λ v. check_url v ≡ none) same_url local_lem

pub valid-text : (s : String) → validate_loopback_url parse_url s ≡ none → has_text (codes s) ≡ true
unfolding validate_loopback_url
valid-text s =
    if-intro (λ r. r ≡ none → has_text (codes s) ≡ true) (is_nil (trim (codes s)))
      (λ _ z. absurd (cc))
      λ _. elim (Bool-cases (has_text (trim (codes s)))) [
        | inl e ↦ λ _. sym (trim_text_lem (codes s)) ∙ e
        | inr e ↦ λ z. absurd (cc (none_parsed (trim (codes s)) e))
      ]
  where
    none_parsed : (l : List ℕ) → has_text l ≡ false → parse_url l ≡ none
    none_parsed l h = rw h refl

pub slashes_valid :
    (s : String)
    → validate_loopback_url parse_url s ≡ none
    → validate_loopback_url parse_url (trim_slashes s) ≡ none
slashes_valid s v = text-valid (trim_slashes s) (slashes_text s ∙ valid-text s v)
