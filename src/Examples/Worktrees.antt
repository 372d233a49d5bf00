-- ===== src/Examples/Worktrees.antt =====
-- A worktree with the lease of its run in it, judged by internal/workforce/control.
use agents_coworkers.Prelude.{
  ◌≡◌, ◌↔◌, refl, true, false, ℕ, String, List, [], ◌∷◌, ◌++◌, ◌==◌, if◌then◌else◌,
}
use agents_coworkers.Prelude.Text.{codes, split_on, same_codes}
use agents_coworkers.Recovery.Errors.{ok}
use agents_coworkers.Control.Worktree.{
  Git, keep_records, join_records, filter_exact_lease_artifact, lease_path,
  check_worktree_dirty_policy,
}
use agents_coworkers.Control.Worktree.Cleanness.{OnlyLease, check_worktree_dirty_policy-OnlyLease}

abbrev record_of : String → List ℕ
record_of s = codes s ++ (0 ∷ [])

abbrev leased : List ℕ
leased = record_of "?? .agents-coworkers/recovery-leases/abc.lease"

abbrev moved : List ℕ
moved = record_of "R  new.txt" ++ record_of "?? .agents-coworkers/recovery-leases/abc.lease"

abbrev pub git : Git
git = record {
  status = λ w. if w == "/w" then ok leased else ok moved;
  to_slash = λ p. p;
  digest = λ t. "abc";
}

leased_is_clean : check_worktree_dirty_policy git "/w" "r1" ≡ ok (true, "")
unfolding check_worktree_dirty_policy filter_exact_lease_artifact keep_records join_records split_on
    same_codes
leased_is_clean = refl

-- What follows a rename is its second path, not a record of its own.
moved_is_dirty : check_worktree_dirty_policy git "/v" "r1" ≡ ok (false, "abc")
unfolding check_worktree_dirty_policy filter_exact_lease_artifact keep_records join_records split_on
    same_codes
moved_is_dirty = refl

check_worktree_dirty_policy-OnlyLease_example :
    (check_worktree_dirty_policy git "/w" "r1" ≡ ok (true, ""))
    ↔ OnlyLease git (lease_path git "r1") (split_on 0 leased)
check_worktree_dirty_policy-OnlyLease_example =
    check_worktree_dirty_policy-OnlyLease git "/w" "r1" leased refl
