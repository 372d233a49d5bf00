-- ===== src/Control/Worktree/Cleanness.antt =====
-- internal/workforce/control/doctor.go: a worktree counts as clean exactly when nothing but the
-- run's own lease file is in it.
use agents_coworkers.Prelude.{
  ℕ, ◌≡◌, refl, ◌↔◌, inl, inr, Bool, true, false, not, ◌&&◌, ◌||◌, String, List, [], ◌∷◌, is_nil,
  arith, Bool-cases, ap,
}
use agents_coworkers.Prelude.Text.{split_on}
use agents_coworkers.Recovery.Errors.{Result, ok, err}
use agents_coworkers.Control.Worktree.{
  Git, is_rename, is_lease, is_second, drops, keep_records, join_records,
  filter_exact_lease_artifact, lease_path, judge_filtered, judge_status,
  check_worktree_dirty_policy,
}

-- Each token is empty, or the untracked lease file, and no rename.
abbrev pub OnlyLease : Git → List ℕ → List (List ℕ) → Type 0
OnlyLease g lease [] = Unit
OnlyLease g lease (t ∷ ts) =
    ((is_nil t || (not (is_rename t) && is_lease g lease t)) ≡ true) × OnlyLease g lease ts

not_pending :
    (g : Git) (lease t : List ℕ)
    → (is_nil t || (not (is_rename t) && is_lease g lease t)) ≡ true
    → (not (is_second g lease false t) && is_rename t) ≡ false
not_pending g lease [] h = refl
not_pending g lease (x ∷ t) h = ground (arith, h)

kept_nothing :
    (g : Git) (lease : List ℕ) (ts : List (List ℕ))
    → keep_records g lease false ts ≡ []
    → OnlyLease g lease ts
unfolding keep_records
kept_nothing g lease [] h = tt
kept_nothing g lease (t ∷ ts) h = elim (Bool-cases (drops g lease false t)) [
  | inl d ↦
      let e : (is_nil t || (not (is_rename t) && is_lease g lease t)) ≡ true = ground (arith, d) in
      (e, kept_nothing g lease ts (rw (d, not_pending g lease t e) at h))
  | inr d ↦ absurd (cc (rw d at h))
]

keeps_nothing :
    (g : Git) (lease : List ℕ) (ts : List (List ℕ))
    → OnlyLease g lease ts
    → keep_records g lease false ts ≡ []
unfolding keep_records
keeps_nothing g lease [] o = refl
keeps_nothing g lease (t ∷ ts) (e, o) =
    let d : drops g lease false t ≡ true = ground (arith, e) in
    rw (d, not_pending g lease t e) (keeps_nothing g lease ts o)

join_nothing : (ts : List (List ℕ)) → join_records ts ≡ [] → ts ≡ []
unfolding join_records
join_nothing [] h = refl
join_nothing ([] ∷ ts) h = absurd (cc)
join_nothing ((c ∷ t) ∷ ts) h = absurd (cc)

filtered-OnlyLease :
    (g : Git) (raw lease : List ℕ)
    → (filter_exact_lease_artifact g raw lease ≡ []) ↔ OnlyLease g lease (split_on 0 raw)
unfolding filter_exact_lease_artifact split_on join_records
filtered-OnlyLease g [] lease = (λ e. (refl, tt), λ o. refl)
filtered-OnlyLease g (c ∷ cs) lease = (
  λ e.
      kept_nothing g lease (split_on 0 (c ∷ cs))
        (join_nothing (keep_records g lease false (split_on 0 (c ∷ cs))) e),
  λ o. rw (keeps_nothing g lease (split_on 0 (c ∷ cs)) o),
)

judged_clean : (g : Git) (r : List ℕ) → (judge_filtered g r ≡ (true, "")) ↔ (r ≡ [])
judged_clean g [] = (λ e. refl, λ e. refl)
judged_clean g (c ∷ cs) = (λ e. absurd (cc (ap (λ (z : Bool × String). z.0) e)), λ e. absurd (cc))

judged-OnlyLease :
    (g : Git) (run_id : String) (out : List ℕ)
    → (judge_status g run_id out ≡ (true, "")) ↔ OnlyLease g (lease_path g run_id) (split_on 0 out)
unfolding split_on
judged-OnlyLease g run_id [] = (λ e. (refl, tt), λ o. refl)
judged-OnlyLease g run_id (c ∷ cs) =
    let path = lease_path g run_id in
    let (f, b) = judged_clean g (filter_exact_lease_artifact g (c ∷ cs) path) in
    let (u, v) = filtered-OnlyLease g (c ∷ cs) path in (λ e. u (f e), λ o. b (v o))

-- A worktree whose status git can give is reported as clean, with no digest, exactly when each token
-- of the status is empty or the record of an untracked file at the path of the run's own lease:
-- any other record, a rename or a copy of whatever path included, makes it dirty.
pub check_worktree_dirty_policy-OnlyLease :
    (g : Git) (worktree run_id : String) (out : List ℕ)
    → g.status worktree ≡ ok out
    → (check_worktree_dirty_policy g worktree run_id ≡ ok (true, ""))
      ↔ OnlyLease g (lease_path g run_id) (split_on 0 out)
unfolding check_worktree_dirty_policy
check_worktree_dirty_policy-OnlyLease g worktree run_id out h =
    let (f, b) = judged-OnlyLease g run_id out in
    rw (h, check_worktree_dirty_policy)
      ((λ e. f (ok_same e), λ o. ap (λ (z : Bool × String). ok z) (b o)))
  where
    ok_same : {a b : Bool × String} → ◌≡◌ {A = Result (Bool × String)} (ok a) (ok b) → a ≡ b
    ok_same {a} e = ap (λ (r : Result (Bool × String)). elim r [ ok z ↦ z | err x ↦ a ]) e
