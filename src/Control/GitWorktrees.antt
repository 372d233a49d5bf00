-- ===== src/Control/GitWorktrees.antt =====
-- internal/workforce/control/attach.go, `listGitWorktrees`: the parser of the output of `git worktree
-- list --porcelain -z`.
pub mod Printed
use Prim.Native.Char.{Char, code}
use agents_coworkers.Prelude.{
  Bool, true, false, ◌&&◌, ◌||◌, not, String, ◌==◌, Option, none, some, List, [], ◌∷◌, nat_eq,
  if◌then◌else◌,
}

pub record ParsedWorktree : Type 0 where
  pub path : String
  pub head : String
  pub branch : String
  pub detached : Bool
  pub bare : Bool

-- `s == ""`
abbrev pub is_empty : String → Bool
is_empty String.[] = true
is_empty (String.◌∷◌ c s) = false

-- `parsedWorktree{}`
abbrev pub no_worktree : ParsedWorktree
no_worktree = record { path = ""; head = ""; branch = ""; detached = false; bare = false }

-- What stands behind a prefix.
abbrev pub strip_text : String → String → Option String
strip_text String.[] s = some s
strip_text (String.◌∷◌ d p) String.[] = none
strip_text (String.◌∷◌ d p) (String.◌∷◌ c s) =
    let rest = strip_text p s in if nat_eq (code d) (code c) then rest else none

-- `strings.TrimPrefix`
abbrev pub trim_text : String → String → String
trim_text p s = elim (strip_text p s) [ none ↦ s | some rest ↦ rest ]

-- A character before the items of what follows it.
abbrev pub begin_item : Char → List String → List String
begin_item c [] = String.◌∷◌ c String.[] ∷ []
begin_item c (i ∷ is) = if nat_eq (code c) 0 then "" ∷ i ∷ is else String.◌∷◌ c i ∷ is

-- `bytes.Split(out, []byte{0})`
unfoldable pub split_zero : String → List String
split_zero String.[] = "" ∷ []
split_zero (String.◌∷◌ c s) = begin_item c (split_zero s)

-- `if current.Path != "" { …; current = parsedWorktree{} }`
abbrev pub reset : ParsedWorktree → ParsedWorktree
reset w = if is_empty w.path then w else no_worktree

abbrev pub set_flag : ParsedWorktree → String → ParsedWorktree
set_flag w s =
    if s == "detached"
    then record w { detached = true }
    else if s == "bare"
    then record w { bare = true }
    else w

abbrev pub set_branch : ParsedWorktree → String → ParsedWorktree
set_branch w s = elim (strip_text "branch " s) [
  | some ref ↦ record w { branch = trim_text "refs/heads/" ref }
  | none ↦ set_flag w s
]

abbrev pub set_head : ParsedWorktree → String → ParsedWorktree
set_head w s = elim (strip_text "HEAD " s) [
  | some commit ↦ record w { head = commit }
  | none ↦ set_branch w s
]

abbrev pub begins_record : String → Bool
begins_record s = elim (strip_text "worktree " s) [ some path ↦ true | none ↦ false ]

-- `current` after an item.
abbrev pub read_item : ParsedWorktree → String → ParsedWorktree
read_item w s = if is_empty s then reset w else elim (strip_text "worktree " s) [
  | some path ↦ record (reset w) { path = path }
  | none ↦ set_head w s
]

-- The loop over the items, and the worktree that is left after it.
unfoldable pub parse_items : ParsedWorktree → List String → List ParsedWorktree
parse_items w [] = if not (is_empty w.path) then w ∷ [] else []
parse_items w (s ∷ ss) =
    let rest = parse_items (read_item w s) ss in
    if (is_empty s || begins_record s) && not (is_empty w.path) then w ∷ rest else rest

-- `listGitWorktrees`, on the output of git
unfoldable pub parse_worktrees : String → List ParsedWorktree
parse_worktrees out = parse_items no_worktree (split_zero out)
