-- ===== src/Recovery/Lease.antt =====
-- internal/recovery/lease.go: the run-owned lease as a file of a directory. The file system's
-- failures, `os.Getpid`, the SHA-256 digest and the JSON codec are parameters.
pub mod Laws
pub mod Inspection
pub mod Exclusion
use Prim.Native.String.{◌++◌ as ◌<>◌}
use agents_coworkers.Prelude.{
  ℕ, ◌≡◌, Bool, true, false, ◌&&◌, ◌||◌, not, String, ◌==◌, Option, none, some, if◌then◌else◌,
}
use agents_coworkers.Prelude.Int.{ℤ, pos}
use agents_coworkers.Recovery.Errors.{Error, other, lease_held, canceled, Result, ok, err}

-- `type LeaseState string`: its constants and any other text of a manifest.
pub data LeaseState : Type 0 where
  lease_free lease_owned lease_locked : LeaseState
  unknown_lease_state : String → LeaseState

pub record LeaseInspection : Type 0 where
  pub workspace_root : String
  pub run_owner : String
  pub task_id : String
  pub owner_id : String
  pub observed_state : LeaseState
  pub observed_pid : ℤ
  pub file_path : String

pub record FileLease : Type 0 where
  pub workspace_root : String
  pub root : String
  pub owner_id : String

pub record LeaseRecord : Type 0 where
  pub owner_id : String
  pub task_id : String
  pub pid : ℤ

-- The files by their paths, with their contents.
abbrev pub Dir : Type 0
Dir = String → Option String

abbrev pub write : String → Option String → Dir → Dir
write p v d q = if p == q then v else d q

-- The answers of the operating system, and the functions of other packages.
pub record Host : Type 0 where
  pub pid : ℤ
  pub absolute : String → Result String
  pub join : String → String → String
  pub digest : String → String
  pub encode : LeaseRecord → String
  pub decode : String → Option LeaseRecord
  pub context_error : Option Error
  pub mkdir_error : Option Error
  -- a failure of the open other than that the file exists
  pub open_error : Option Error
  -- a failed write, sync or close
  pub write_error : Option Error
  -- what such a failure has written of the content
  pub written : String → String
  -- a failed read of a file that exists
  pub read_error : Option Error
  pub remove_error : Option Error

module _ (s : Host) where
  unfoldable pub lease_dir : String → String
  lease_dir root = s.join (s.join root ".agents-coworkers") "recovery-leases"

  unfoldable pub lease_path : String → String → String → String
  lease_path dir run_owner task_id =
      s.join dir (s.digest (run_owner <> "\n" <> task_id) <> ".lease")

  unfoldable pub new_file_lease : String → String → Result FileLease
  unfolding lease_dir
  new_file_lease workspace owner_id = elim (s.absolute workspace) [
    | err x ↦ err x
    | ok root ↦
        if owner_id == ""
        then err (other "owner id is required")
        else ok (record { workspace_root = root; root = lease_dir root; owner_id = owner_id })
  ]

  abbrev pub held_record : FileLease → String → LeaseRecord
  held_record l task_id = record { owner_id = l.owner_id; task_id = task_id; pid = s.pid }

  abbrev pub is_incomplete : FileLease → String → String → Bool
  is_incomplete l run_owner task_id =
      l.root == "" || run_owner == "" || l.owner_id == "" || task_id == ""

  -- `_ = os.Remove(path)` after a failed write: its own failure is ignored.
  abbrev pub clean_up : String → String → Dir → Dir
  clean_up path content d = elim s.remove_error [
    | some x ↦ write path (some (s.written content)) d
    | none ↦ write path none d
  ]

  -- The exclusive create and the write after it.
  unfoldable pub create_exclusive : String → String → Dir → Option Error × Dir
  create_exclusive path content d = elim (d path) [
    | some c ↦ (some lease_held, d)
    | none ↦ elim s.open_error [
      | some x ↦ (some x, d)
      | none ↦ elim s.write_error [
        | some x ↦ (some x, clean_up path content d)
        | none ↦ (none, write path (some content) d)
      ]
    ]
  ]

  -- `Acquire`, up to its error; on `none` the caller holds the lease.
  unfoldable pub acquire : FileLease → String → String → Dir → Option Error × Dir
  acquire l run_owner task_id d = elim s.context_error [
    | some x ↦ (some x, d)
    | none ↦
        if is_incomplete l run_owner task_id
        then (some (other "lease root, run owner, owner id and task id are required"), d)
        else elim s.mkdir_error [
          | some x ↦ (some x, d)
          | none ↦
              create_exclusive (lease_path l.root run_owner task_id)
                (s.encode (held_record l task_id)) d
        ]
  ]

  abbrev pub is_mine : FileLease → String → Option LeaseRecord → Bool
  is_mine l task_id none = false
  is_mine l task_id (some r) = r.owner_id == l.owner_id && r.task_id == task_id

  unfoldable pub remove : String → Dir → Option Error × Dir
  remove path d = elim s.remove_error [ some x ↦ (some x, d) | none ↦ (none, write path none d) ]

  -- The function that `Acquire` returns.
  unfoldable pub release : FileLease → String → String → Dir → Option Error × Dir
  unfolding remove
  release l run_owner task_id d =
      let path = lease_path l.root run_owner task_id in
      elim (d path) [
        | none ↦ (some (other "file does not exist"), d)
        | some content ↦ elim s.read_error [
          | some x ↦ (some x, d)
          | none ↦
              if not (is_mine l task_id (s.decode content))
              then (some lease_held, d)
              else remove path d
        ]
      ]

  abbrev pub seen : LeaseInspection → String → LeaseRecord → LeaseInspection
  seen res task_id r = record res {
    observed_pid = r.pid;
    owner_id = r.owner_id;
    observed_state =
        if r.owner_id == res.owner_id && r.task_id == task_id then lease_owned else lease_locked;
  }

  unfoldable pub judge_record :
      LeaseInspection → String → Option LeaseRecord → Result LeaseInspection
  judge_record res task_id none = err (other "malformed lease record")
  judge_record res task_id (some r) =
      if r.owner_id == "" || r.task_id == ""
      then err (other "malformed lease record: missing owner or task id")
      else ok (seen res task_id r)

  abbrev pub unseen : String → String → String → String → String → LeaseInspection
  unseen root run_owner task_id expected_owner path = record {
    workspace_root = root;
    run_owner = run_owner;
    task_id = task_id;
    owner_id = expected_owner;
    observed_state = lease_free;
    observed_pid = pos 0;
    file_path = path;
  }

  unfoldable pub inspect_file : String → String → String → String → Dir → Result LeaseInspection
  inspect_file root run_owner task_id expected_owner d =
      let path = lease_path (lease_dir root) run_owner task_id in
      let res = unseen root run_owner task_id expected_owner path in
      elim (d path) [
        | none ↦ ok res
        | some content ↦ elim s.read_error [
          | some x ↦ err x
          | none ↦ judge_record res task_id (s.decode content)
        ]
      ]

  -- `InspectLease`: it reads the directory and returns none.
  unfoldable pub inspect_lease : String → String → String → String → Dir → Result LeaseInspection
  unfolding lease_dir
  inspect_lease workspace run_owner task_id expected_owner d =
      if workspace == "" || run_owner == "" || task_id == ""
      then err (other "workspace root, run owner, and task id are required for lease inspection")
      else elim (s.absolute workspace) [
        | err x ↦ err x
        | ok root ↦ inspect_file root run_owner task_id expected_owner d
      ]

  -- `FileLease.Inspect`
  unfoldable pub inspect : FileLease → String → String → Dir → Result LeaseInspection
  inspect l run_owner task_id d = inspect_lease l.workspace_root run_owner task_id l.owner_id d
