-- ===== src/Control/Attach/Selection.antt =====
-- internal/workforce/control/attach.go, `RunAttach`, step 4.4: the one worktree on a branch.
use agents_coworkers.Prelude.{
  ◌≡◌, ◌≢◌, true, false, ◌&&◌, not, String, ◌==◌, eq_iff, some, List, [], ◌∷◌, arith, if-intro, sym,
  subst, ◌∙◌,
}
use mathlib.Core.List.{Memᴰ}
use mathlib.Core.List.Memᴰ.{head, tail}
use agents_coworkers.Control.GitWorktrees.{ParsedWorktree}
use agents_coworkers.Control.Attach.{Site}
use agents_coworkers.Control.Attach.Reading.{worktrees_on, only_one}

-- A worktree of the list that is on the branch.
abbrev pub On : String → List ParsedWorktree → ParsedWorktree → Type 0
On branch ws w = Memᴰ w ws × (w.detached ≡ false) × (w.bare ≡ false) × (w.branch ≡ branch)

module _ (h : Site) where
  -- The worktree that is on the branch, and no other one.
  abbrev pub Only : String → List ParsedWorktree → ParsedWorktree → Type 0
  Only branch ws w = On branch ws w × ((v : ParsedWorktree) → On branch ws v → v ≡ w)

  test_lem :
      (w : ParsedWorktree) (branch : String)
      → (not w.detached && not w.bare && w.branch == branch) ≡ true
      → (w.detached ≡ false) × (w.bare ≡ false) × (w.branch ≡ branch)
  test_lem w branch e =
      (ground (arith, e), ground (arith, e), (eq_iff w.branch branch).0 (ground (arith, e)))

  kept :
      (branch : String) (ws : List ParsedWorktree) (v : ParsedWorktree)
      → On branch ws v
      → Memᴰ v (worktrees_on h branch ws)
  unfolding worktrees_on
  kept branch [] v (m, _, _, _) = elim m [ ]
  kept branch (w ∷ ws) v (head e, d, b, n) =
      if-intro (λ l. Memᴰ v l) (not w.detached && not w.bare && w.branch == branch) (λ _. head e)
        λ f.
          let named : (v.branch == branch) ≡ true = (eq_iff v.branch branch).1 n in
          let test : (not v.detached && not v.bare && v.branch == branch) ≡ true =
            ground (arith, d, b, named) in
          absurd (
            subst (λ x. (not x.detached && not x.bare && x.branch == branch) ≢ false) e
              (λ z. ground (arith, z, test)) f)
  kept branch (w ∷ ws) v (tail m, r, t, b) =
      let rest = kept branch ws v (m, r, t, b) in
      if-intro (λ l. Memᴰ v l) (not w.detached && not w.bare && w.branch == branch) (λ _. tail rest)
        (λ _. rest)

  sound :
      (branch : String) (ws : List ParsedWorktree) (v : ParsedWorktree)
      → Memᴰ v (worktrees_on h branch ws)
      → On branch ws v
  unfolding worktrees_on
  sound branch [] v m = elim m [ ]
  sound branch (w ∷ ws) v m =
      if-intro (λ l. Memᴰ v l → On branch (w ∷ ws) v)
        (not w.detached && not w.bare && w.branch == branch)
        (λ t n. elim n [
          | head e ↦ here e (test_lem w branch t)
          | tail k ↦ later (sound branch ws v k)
        ])
        (λ _ n. later (sound branch ws v n)) m
    where
      later : On branch ws v → On branch (w ∷ ws) v
      later (m, r, t, b) = (tail m, r, t, b)

      here :
          v ≡ w
          → (w.detached ≡ false) × (w.bare ≡ false) × (w.branch ≡ branch)
          → On branch (w ∷ ws) v
      here e (d, b, n) = (
        head e,
        subst (λ x. x.detached ≡ false) (sym e) d,
        subst (λ x. x.bare ≡ false) (sym e) b,
        subst (λ x. x.branch ≡ branch) (sym e) n,
      )

  one_lem :
      (l : List ParsedWorktree) (w : ParsedWorktree)
      → only_one h l ≡ some w
      → Memᴰ w l × ((v : ParsedWorktree) → Memᴰ v l → v ≡ w)
  one_lem [] w e = absurd (cc)
  one_lem (u ∷ []) w e =
      let same_one : u ≡ w = cc in
      (head (sym same_one), λ v m. elim m [ head k ↦ k ∙ same_one | tail k ↦ elim k [ ] ])
  one_lem (u ∷ x ∷ l) w e = absurd (cc)

  pub only_one-Only :
      (branch : String) (ws : List ParsedWorktree) (w : ParsedWorktree)
      → only_one h (worktrees_on h branch ws) ≡ some w
      → Only branch ws w
  only_one-Only branch ws w e =
      let (m, only) = one_lem (worktrees_on h branch ws) w e in
      (sound branch ws w m, λ v n. only v (kept branch ws v n))
