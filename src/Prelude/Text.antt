-- ===== src/Prelude/Text.antt =====
-- Go's `strings.TrimSpace`, `ToLower`, `HasPrefix`, `TrimPrefix` and `Split`, on code points.
pub mod Blank
use Prim.Native.Nat.{ℕ, ◌+◌}
use Prim.Native.Char.{code}
use Prim.Native.String.{String}
use mathlib.Core.Bool.{Bool, true, false, ◌&&◌, ◌||◌}
use mathlib.Core.Option.{Option, none, some}
use mathlib.Core.List.{List, [], ◌∷◌}
use text.Mathlib.Text.{◌==◌}
use agents_coworkers.Prelude.Tests.{leb, nat_eq, if◌then◌else◌}
use agents_coworkers.Prelude.Lists.{is_nil}

-- The code points of a text. `String` has its own `[]` and `∷`.
abbrev pub codes : String → List ℕ
codes String.[] = []
codes (String.◌∷◌ c s) = code c ∷ codes s

-- `unicode.IsSpace`
unfoldable pub is_space : ℕ → Bool
is_space c =
    (leb 9 c && leb c 13)
    || nat_eq c 32
    || nat_eq c 0x85
    || nat_eq c 0xa0
    || nat_eq c 0x1680
    || (leb 0x2000 c && leb c 0x200a)
    || nat_eq c 0x2028
    || nat_eq c 0x2029
    || nat_eq c 0x202f
    || nat_eq c 0x205f
    || nat_eq c 0x3000

-- `strings.TrimSpace(s) == ""`: every character is a space.
unfoldable pub is_blank : String → Bool
unfolding is_space
is_blank String.[] = true
is_blank (String.◌∷◌ c s) = is_space (code c) && is_blank s

unfoldable pub same_codes : List ℕ → List ℕ → Bool
same_codes [] [] = true
same_codes [] (d ∷ ds) = false
same_codes (c ∷ cs) [] = false
same_codes (c ∷ cs) (d ∷ ds) = nat_eq c d && same_codes cs ds

abbrev pub skip_spaces : List ℕ → List ℕ
skip_spaces [] = []
skip_spaces (c ∷ cs) = let rest = skip_spaces cs in if is_space c then rest else c ∷ cs

-- A character before a rest that has no spaces at its end.
abbrev pub before_spaces : ℕ → List ℕ → List ℕ
before_spaces c rest = if is_space c && is_nil rest then [] else c ∷ rest

abbrev pub drop_spaces : List ℕ → List ℕ
drop_spaces [] = []
drop_spaces (c ∷ cs) = before_spaces c (drop_spaces cs)

-- `strings.TrimSpace`
unfoldable pub trim : List ℕ → List ℕ
unfolding is_space
trim cs = drop_spaces (skip_spaces cs)

-- `unicode.ToLower`, as far as its result is in ASCII: the capitals of ASCII, the dotted capital I
-- and the Kelvin sign. A result outside of ASCII is equal to no character of an ASCII word, and
-- neither is the character itself, which stands for it here.
abbrev pub lower_code : ℕ → ℕ
lower_code c =
    if leb 65 c && leb c 90
    then c + 32
    else if nat_eq c 0x130
    then 0x69
    else if nat_eq c 0x212a
    then 0x6b
    else c

unfoldable pub lower : List ℕ → List ℕ
lower [] = []
lower (c ∷ cs) = lower_code c ∷ lower cs

-- What stands behind a prefix.
unfoldable pub strip_prefix : List ℕ → List ℕ → Option (List ℕ)
strip_prefix [] cs = some cs
strip_prefix (d ∷ ds) [] = none
strip_prefix (d ∷ ds) (c ∷ cs) = let rest = strip_prefix ds cs in if nat_eq d c then rest else none

-- `strings.TrimPrefix`
unfoldable pub trim_prefix : List ℕ → List ℕ → List ℕ
trim_prefix ds cs = elim (strip_prefix ds cs) [ none ↦ cs | some rest ↦ rest ]

abbrev pub join_part : ℕ → ℕ → List (List ℕ) → List (List ℕ)
join_part d c [] = (c ∷ []) ∷ []
join_part d c (l ∷ ls) = if nat_eq c d then [] ∷ l ∷ ls else (c ∷ l) ∷ ls

-- `strings.Split` and `bytes.Split`, at one separator `d`.
unfoldable pub split_on : ℕ → List ℕ → List (List ℕ)
split_on d [] = [] ∷ []
split_on d (c ∷ cs) = join_part d c (split_on d cs)

abbrev pub skip_spaces_of : String → String
skip_spaces_of String.[] = String.[]
skip_spaces_of (String.◌∷◌ c s) =
    let rest = skip_spaces_of s in if is_space (code c) then rest else String.◌∷◌ c s

abbrev pub drop_spaces_of : String → String
drop_spaces_of String.[] = String.[]
drop_spaces_of (String.◌∷◌ c s) =
    let rest = drop_spaces_of s in
    if is_space (code c) && rest == "" then String.[] else String.◌∷◌ c rest

-- `strings.TrimSpace`, as a text.
unfoldable pub trim_space : String → String
unfolding is_space
trim_space s = drop_spaces_of (skip_spaces_of s)

-- `strings.TrimRight(s, "/")`
unfoldable pub trim_slashes : String → String
trim_slashes String.[] = String.[]
trim_slashes (String.◌∷◌ c s) =
    let rest = trim_slashes s in
    if nat_eq (code c) 47 && rest == "" then String.[] else String.◌∷◌ c rest
