-- ===== src/Control/Attach.antt =====
-- internal/workforce/control/attach.go, `ParseAttachFlags` and `RunAttach`. The flag package, git, the
-- requests and their JSON, the functions on paths and the clock are parameters, and so is what the
-- models of the other files take. What is printed is not modelled, and the texts of the errors are
-- shortened.
pub mod Reading
pub mod Publishing
pub mod Selection
pub mod Opened
pub mod Gathered
pub mod Soundness
pub mod Accepted
pub mod Results
pub mod Persisted
use Prim.Native.String.{◌++◌ as ◌<>◌}
use agents_coworkers.Prelude.{
  ℕ, Bool, true, false, ◌&&◌, ◌||◌, not, String, ◌==◌, Option, none, some, List, [], ◌∷◌, any,
  is_nil, if◌then◌else◌,
}
use agents_coworkers.Prelude.Text.{trim_slashes, is_blank, trim_space}
use agents_coworkers.Recovery.Errors.{Error, Result, ok, err}
use agents_coworkers.Recovery.Lease.{Host as LeaseHost, Dir, LeaseInspection, inspect_lease}
use agents_coworkers.Control.Types.{
  RunSpec, ProfileSpec, RunManifest, AoDiscoveryResult, GatewayResult,
}
use agents_coworkers.Control.Checks.{Check, first_failure}
use agents_coworkers.Control.Paths.{are_paths_same_or_equivalent}
use agents_coworkers.Control.RunSpec.{parse_and_validate_run_spec}
use agents_coworkers.Control.Worktree.{check_worktree_dirty_policy}
use agents_coworkers.Control.Discovery.{Answer, resolve_ao_endpoint, resolve_gateway_endpoint}
use agents_coworkers.Control.Manifest.{is_locked, read_manifest}
use agents_coworkers.Control.Manifest.Writing.{Disk, content_at, to_option, write_manifest_atomic}
use agents_coworkers.Control.Doctor.{Surroundings}
use agents_coworkers.Control.Attempt.{
  Attempt, done, exits, ◌>>=◌, ◌>>◌, require, succeed, discover, decoded, fetch,
}
use agents_coworkers.Control.GitWorktrees.{ParsedWorktree, parse_worktrees}

pub record AttachOptions : Type 0 where
  pub spec_path : String
  pub session_id : String
  pub workspace : String
  pub manifest_path : String
  pub ao_url : String
  pub gateway_url : String
  pub json : Bool

-- The session of `sessionResponseWrapper`.
pub record Session : Type 0 where
  pub id : String
  pub project_id : String
  pub kind : String
  pub harness : String
  pub model : String
  pub branch : String
  pub is_terminated : Bool

-- The settings of `conversationSettingsWrapper`.
pub record Settings : Type 0 where
  pub model : String
  pub reasoning_effort : String

abbrev pub flag_checks : AttachOptions → List Check
flag_checks o =
    (trim_space o.spec_path == "", "--spec <run-spec.json> is required")
    ∷ (trim_space o.session_id == "", "--session <session-id> is required")
    ∷ (trim_space o.workspace == "", "--workspace <path> is required")
    ∷ (trim_space o.manifest_path == "", "--manifest <output-path> is required")
    ∷ []

-- `ParseAttachFlags`, on what `fs.Parse` reads, `none` if it fails.
unfoldable pub parse_attach_flags : Option AttachOptions → Option AttachOptions × ℕ
parse_attach_flags none = (none, 1)
parse_attach_flags (some o) = elim (first_failure (flag_checks o)) [
  | some x ↦ (none, 2)
  | none ↦ (some o, 0)
]

pub record Site : Type 0 where
  pub surroundings : Surroundings
  pub disk : Disk
  pub lease_host : LeaseHost
  -- `filepath.Abs` and `filepath.EvalSymlinks`
  pub abs : String → Result String
  pub eval_symlinks : String → Result String
  pub join : String → String → String
  pub path_escape : String → String
  -- a GET of the daemon
  pub query : String → Answer
  pub decode_session : String → Option Session
  pub decode_settings : String → Option Settings
  -- the outputs of `git worktree list --porcelain -z` and `git rev-parse --git-common-dir`
  pub worktree_list : String → Result String
  pub common_dir : String → Result String
  -- `time.Now().UTC().Format(time.RFC3339)`
  pub now : String

-- What steps 1 to 6 have read.
pub record Findings : Type 0 where
  pub spec : RunSpec
  pub spec_sha256 : String
  pub workspace : String
  pub ao : AoDiscoveryResult
  pub gateway : GatewayResult
  pub session : Session
  pub profile : ProfileSpec
  pub effort : String
  pub root : String
  pub worktree : ParsedWorktree
  pub repository : String
  pub is_clean : Bool
  pub porcelain_sha256 : String
  pub lease : LeaseInspection

module _ (h : Site) where
  abbrev pub equivalent : String → String → Bool
  equivalent p q = are_paths_same_or_equivalent h.disk.reader.host p q

  abbrev pub followed : String → Result String → Result String
  followed path (ok target) = ok target
  followed path (err x) = ok path

  abbrev pub physical : Result String → Result String
  physical (err x) = err x
  physical (ok path) = followed path (h.eval_symlinks path)

  -- `canonicalPhysicalPath`
  unfoldable pub canonical_physical_path : String → Result String
  canonical_physical_path p = physical (h.abs p)

  abbrev pub identity_of : String → Result String → Result String
  identity_of dir (err x) = err x
  identity_of dir (ok out) = canonical_physical_path (
      if not (h.disk.reader.host.is_abs (trim_space out))
      then h.join dir (trim_space out)
      else trim_space out)

  -- `getGitRepositoryIdentity`
  unfoldable pub get_git_repository_identity : String → Result String
  get_git_repository_identity dir = identity_of dir (h.common_dir dir)

  abbrev pub listed : Result String → Result (List ParsedWorktree)
  listed (err x) = err x
  listed (ok out) = ok (parse_worktrees out)

  -- `listGitWorktrees`
  unfoldable pub list_git_worktrees : String → Result (List ParsedWorktree)
  list_git_worktrees repo = listed (h.worktree_list repo)
