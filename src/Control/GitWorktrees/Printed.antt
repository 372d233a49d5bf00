-- ===== src/Control/GitWorktrees/Printed.antt =====
-- internal/workforce/control/attach.go, `listGitWorktrees`, on what git prints: one record per
-- worktree, each attribute closed by a NUL and each record by another one.
use Prim.Native.Char.{Char, code}
use mathlib.Core.List.{append_assoc}
use agents_coworkers.Prelude.{
  ◌≡◌, refl, ap, Bool, true, false, ◌&&◌, not, String, List, [], ◌∷◌, ◌++◌, all, nat_eq, ◌∙◌, arith,
  if-intro,
}
use agents_coworkers.Control.GitWorktrees.{
  ParsedWorktree, is_empty, split_zero, begin_item, parse_items, parse_worktrees, no_worktree,
}

-- One text before another.
infixr 30 ◌<>◌
abbrev pub ◌<>◌ : String → String → String
String.[] <> t = t
String.◌∷◌ c s <> t = String.◌∷◌ c (s <> t)

-- A worktree as git knows it.
pub data Listed : Type 0 where
  bare_at : (path : String) → Listed
  detached_at : (path commit : String) → Listed
  on_branch : (path commit branch : String) → Listed

abbrev pub seen : Listed → ParsedWorktree
seen (bare_at p) = record { path = p; head = ""; branch = ""; detached = false; bare = true }
seen (detached_at p c) = record { path = p; head = c; branch = ""; detached = true; bare = false }
seen (on_branch p c b) = record { path = p; head = c; branch = b; detached = false; bare = false }

abbrev pub all_seen : List Listed → List ParsedWorktree
all_seen [] = []
all_seen (w ∷ ws) = seen w ∷ all_seen ws

abbrev pub attributes : Listed → List String
attributes (bare_at p) = ("worktree " <> p) ∷ "bare" ∷ "" ∷ []
attributes (detached_at p c) = ("worktree " <> p) ∷ ("HEAD " <> c) ∷ "detached" ∷ "" ∷ []
attributes (on_branch p c b) =
    ("worktree " <> p) ∷ ("HEAD " <> c) ∷ ("branch refs/heads/" <> b) ∷ "" ∷ []

abbrev pub all_attributes : List Listed → List String
all_attributes [] = []
all_attributes (w ∷ ws) = attributes w ++ all_attributes ws

-- Every item closed by a NUL.
abbrev pub close_items : List String → String
close_items [] = ""
close_items (s ∷ ss) = s <> ("\0" <> close_items ss)

abbrev pub print_worktrees : List Listed → String
print_worktrees ws = close_items (all_attributes ws)

-- No NUL in a text.
abbrev pub is_plain : String → Bool
is_plain String.[] = true
is_plain (String.◌∷◌ c s) = not (nat_eq (code c) 0) && is_plain s

-- The path is a text, and nothing has a NUL.
abbrev pub is_printable : Listed → Bool
is_printable (bare_at p) = not (is_empty p) && is_plain p
is_printable (detached_at p c) = not (is_empty p) && (is_plain p && is_plain c)
is_printable (on_branch p c b) = not (is_empty p) && (is_plain p && (is_plain c && is_plain b))

record_lem :
    (w : Listed) (rest : List String)
    → is_printable w ≡ true
    → parse_items no_worktree (attributes w ++ rest) ≡ seen w ∷ parse_items no_worktree rest
unfolding parse_items
record_lem (bare_at String.[]) rest h = absurd (cc)
record_lem (bare_at (String.◌∷◌ c p)) rest h = refl
record_lem (detached_at String.[] commit) rest h = absurd (cc)
record_lem (detached_at (String.◌∷◌ c p) commit) rest h = refl
record_lem (on_branch String.[] commit branch) rest h = absurd (cc)
record_lem (on_branch (String.◌∷◌ c p) commit branch) rest h = refl

all_records_lem :
    (ws : List Listed)
    → all is_printable ws ≡ true
    → parse_items no_worktree (all_attributes ws ++ ("" ∷ [])) ≡ all_seen ws
unfolding parse_items
all_records_lem [] h = refl
all_records_lem (w ∷ ws) h =
    ap (λ z. parse_items no_worktree z) (append_assoc (attributes w) (all_attributes ws) ("" ∷ []))
    ∙ record_lem w (all_attributes ws ++ ("" ∷ [])) (ground (arith, h))
    ∙ ap (λ z. seen w ∷ z) (all_records_lem ws (ground (arith, h)))

begin_zero :
    (is : List String)
    → (i : String) × (is' : List String) × (is ≡ i ∷ is')
    → begin_item "\0" is ≡ "" ∷ is
begin_zero is (i, is', e) = rw e refl

begin_item-begins :
    (c : Char) (is : List String) → (i : String) × (is' : List String) × (begin_item c is ≡ i ∷ is')
begin_item-begins c [] = (_, _, refl)
begin_item-begins c (i ∷ is) =
    if-intro (λ z. (i' : String) × (is' : List String) × (z ≡ i' ∷ is')) (nat_eq (code c) 0)
      (λ _. (_, _, refl)) (λ _. (_, _, refl))

split_zero-begins : (s : String) → (i : String) × (is : List String) × (split_zero s ≡ i ∷ is)
unfolding split_zero
split_zero-begins String.[] = (_, _, refl)
split_zero-begins (String.◌∷◌ c s) = begin_item-begins c (split_zero s)

plain_item :
    (s rest : String) → is_plain s ≡ true → split_zero (s <> ("\0" <> rest)) ≡ s ∷ split_zero rest
unfolding split_zero
plain_item String.[] rest h = begin_zero (split_zero rest) (split_zero-begins rest)
plain_item (String.◌∷◌ c s) rest h =
    let other : nat_eq (code c) 0 ≡ false = ground (arith, h) in
    rw (plain_item s rest (ground (arith, h))) (rw other refl)

-- The items that were closed, and the empty text after the last NUL.
split_zero-close_items :
    (ss : List String) → all is_plain ss ≡ true → split_zero (close_items ss) ≡ ss ++ ("" ∷ [])
unfolding split_zero
split_zero-close_items [] h = refl
split_zero-close_items (s ∷ ss) h =
    plain_item s (close_items ss) (ground (arith, h))
    ∙ ap (λ z. s ∷ z) (split_zero-close_items ss (ground (arith, h)))

all-append :
    (ss ts : List String)
    → all is_plain ss ≡ true
    → all is_plain ts ≡ true
    → all is_plain (ss ++ ts) ≡ true
all-append [] ts h k = k
all-append (s ∷ ss) ts h k =
    let rest = all-append ss ts (ground (arith, h)) k in ground (arith, h, rest)

attributes_plain : (w : Listed) → is_printable w ≡ true → all is_plain (attributes w) ≡ true
attributes_plain (bare_at p) h = ground (arith, h)
attributes_plain (detached_at p c) h = ground (arith, h)
attributes_plain (on_branch p c b) h = ground (arith, h)

all_attributes_plain :
    (ws : List Listed) → all is_printable ws ≡ true → all is_plain (all_attributes ws) ≡ true
all_attributes_plain [] h = refl
all_attributes_plain (w ∷ ws) h =
    all-append (attributes w) (all_attributes ws) (attributes_plain w (ground (arith, h)))
      (all_attributes_plain ws (ground (arith, h)))

-- The worktrees that git prints, each with a path and with no NUL in its texts, are the ones that
-- the parser returns, in their order: a bare one without a commit, a detached one without a branch,
-- and one on a branch with the branch's name without `refs/heads/`.
pub parse_worktrees-print_worktrees :
    (ws : List Listed)
    → all is_printable ws ≡ true
    → parse_worktrees (print_worktrees ws) ≡ all_seen ws
unfolding parse_worktrees
parse_worktrees-print_worktrees ws h =
    ap (λ z. parse_items no_worktree z)
      (split_zero-close_items (all_attributes ws) (all_attributes_plain ws h))
    ∙ all_records_lem ws h
