-- ===== src/Control/Worktree.antt =====
-- internal/workforce/control/doctor.go, `filterExactLeaseArtifact` and `checkWorktreeDirtyPolicy`:
-- the records of `git status --porcelain=v1 -z` as bytes. Git, SHA-256 and `filepath.ToSlash` are
-- parameters.
pub mod Cleanness
use Prim.Native.String.{◌++◌ as ◌<>◌}
use agents_coworkers.Prelude.{
  ℕ, Bool, true, false, ◌&&◌, ◌||◌, not, String, List, [], ◌∷◌, ◌++◌, is_nil, nat_eq, if◌then◌else◌,
}
use agents_coworkers.Prelude.Text.{codes, same_codes, split_on}
use agents_coworkers.Recovery.Errors.{Result, ok, err}

pub record Git : Type 0 where
  -- the output of `git status` with `-uall` on a worktree
  pub status : String → Result (List ℕ)
  pub to_slash : List ℕ → List ℕ
  -- the hexadecimal SHA-256 of bytes
  pub digest : List ℕ → String

abbrev pub is_mark : ℕ → Bool
is_mark c = nat_eq c 82 || nat_eq c 67

-- A token that begins a record of a rename or a copy.
abbrev pub is_rename : List ℕ → Bool
is_rename [] = false
is_rename (x ∷ []) = false
is_rename (x ∷ y ∷ t) = is_mark x || is_mark y

module _ (g : Git) (lease : List ℕ) where
  -- The untracked file at the path of the lease.
  abbrev pub is_lease : List ℕ → Bool
  is_lease [] = false
  is_lease (x ∷ []) = false
  is_lease (x ∷ y ∷ []) = false
  is_lease (x ∷ y ∷ z ∷ path) =
      nat_eq x 63 && nat_eq y 63 && nat_eq z 32 && same_codes (g.to_slash path) lease

  -- A token that is the second one of a rename, since one is pending.
  abbrev pub is_second : Bool → List ℕ → Bool
  is_second pending t = pending && not (is_nil t)

  abbrev pub drops : Bool → List ℕ → Bool
  drops pending t = not (is_second pending t) && (is_nil t || (not (is_rename t) && is_lease t))

  -- The loop over the tokens; after the first token of a rename its second is pending.
  unfoldable pub keep_records : Bool → List (List ℕ) → List (List ℕ)
  keep_records pending [] = []
  keep_records pending (t ∷ ts) =
      let rest = keep_records (not (is_second pending t) && is_rename t) ts in
      if drops pending t then rest else t ∷ rest

unfoldable pub join_records : List (List ℕ) → List ℕ
join_records [] = []
join_records (t ∷ ts) = t ++ (0 ∷ join_records ts)

-- `filterExactLeaseArtifact`
unfoldable pub filter_exact_lease_artifact : Git → List ℕ → List ℕ → List ℕ
filter_exact_lease_artifact g raw lease =
    if is_nil raw then raw else join_records (keep_records g lease false (split_on 0 raw))

abbrev pub lease_path : Git → String → List ℕ
lease_path g run_id =
    codes
      (".agents-coworkers/recovery-leases/" <> g.digest (codes (run_id <> "\n__run__")) <> ".lease")

abbrev pub judge_filtered : Git → List ℕ → Bool × String
judge_filtered g [] = (true, "")
judge_filtered g (c ∷ cs) = (false, g.digest (c ∷ cs))

abbrev pub judge_status : Git → String → List ℕ → Bool × String
judge_status g run_id out =
    if is_nil out
    then (true, "")
    else judge_filtered g (filter_exact_lease_artifact g out (lease_path g run_id))

-- `checkWorktreeDirtyPolicy`: whether the worktree is clean, and the digest of what is not.
unfoldable pub check_worktree_dirty_policy : Git → String → String → Result (Bool × String)
check_worktree_dirty_policy g worktree run_id = elim (g.status worktree) [
  | err x ↦ err x
  | ok out ↦ ok (judge_status g run_id out)
]
