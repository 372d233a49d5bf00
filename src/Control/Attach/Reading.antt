-- ===== src/Control/Attach/Reading.antt =====
-- internal/workforce/control/attach.go, `RunAttach`, steps 1 to 6: what is read and checked before the
-- manifest is made.
use Prim.Native.String.{◌++◌ as ◌<>◌}
use agents_coworkers.Prelude.{
  ℕ, Bool, true, ◌&&◌, ◌||◌, not, String, ◌==◌, Option, none, some, List, [], ◌∷◌, any, is_nil,
  if◌then◌else◌,
}
use agents_coworkers.Prelude.Text.{trim_slashes, trim_space}
use agents_coworkers.Recovery.Errors.{Result, ok, err}
use agents_coworkers.Recovery.Lease.{Dir, LeaseInspection, inspect_lease}
use agents_coworkers.Control.Types.{RunSpec, ProfileSpec, AoDiscoveryResult, GatewayResult}
use agents_coworkers.Control.Checks.{Check}
use agents_coworkers.Control.RunSpec.{parse_and_validate_run_spec}
use agents_coworkers.Control.Worktree.{check_worktree_dirty_policy}
use agents_coworkers.Control.Discovery.{resolve_ao_endpoint, resolve_gateway_endpoint}
use agents_coworkers.Control.Manifest.{is_locked}
use agents_coworkers.Control.Attempt.{
  Attempt, done, ◌>>=◌, ◌>>◌, require, succeed, discover, decoded, fetch,
}
use agents_coworkers.Control.GitWorktrees.{ParsedWorktree}
use agents_coworkers.Control.Attach.{
  AttachOptions, Session, Settings, Site, Findings, equivalent, canonical_physical_path,
  get_git_repository_identity, list_git_worktrees,
}

module _ (h : Site) where
  abbrev pub target_checks : String → RunSpec → List Check
  target_checks workspace spec =
      (
        not (equivalent h workspace spec.target.execution_workspace),
        "--workspace does not match spec executionWorkspace",
      )
      ∷ []

  -- 1. The spec, its digest and the workspace of the flag.
  unfoldable pub read_target : AttachOptions → Attempt (RunSpec × String × String)
  read_target o = do
    raw ← succeed h.surroundings.read_spec
    parsed ← succeed (parse_and_validate_run_spec h.surroundings.spec_reader raw)
    workspace ← succeed (canonical_physical_path h o.workspace)
    require (target_checks workspace (parsed.0))
    done (parsed.0, parsed.1, workspace)

  -- 2. The daemon and the gateway.
  unfoldable pub find_endpoints : AttachOptions → Attempt (AoDiscoveryResult × GatewayResult)
  find_endpoints o = do
    ao ← discover (resolve_ao_endpoint h.surroundings.machine o.ao_url)
    gateway ← discover (resolve_gateway_endpoint h.surroundings.machine o.gateway_url)
    done (ao, gateway)

  abbrev pub session_url : AttachOptions → AoDiscoveryResult → String
  session_url o ao = trim_slashes ao.url <> ("/api/v1/sessions/" <> h.path_escape o.session_id)

  abbrev pub session_checks : AttachOptions → GatewayResult → Session → List Check
  session_checks o gateway s =
      (trim_space s.id == "" || not (s.id == o.session_id), "session ID mismatch or empty")
      ∷ (trim_space s.project_id == "", "session has empty projectId")
      ∷ (trim_space s.branch == "", "session has empty branch")
      ∷ (trim_space s.kind == "", "session has empty kind")
      ∷ (trim_space s.harness == "", "session has empty harness")
      ∷ (trim_space s.model == "", "session has empty model")
      ∷ (s.is_terminated, "session is terminated")
      ∷ (not (any (λ m. m == s.model) gateway.observed_models), "session model is not in catalog")
      ∷ []

  -- `spec.Profiles[kind]`
  unfoldable pub find_profile : String → List (String × ProfileSpec) → Option ProfileSpec
  find_profile kind [] = none
  find_profile kind (p ∷ ps) =
      let rest = find_profile kind ps in if p.0 == kind then some (p.1) else rest

  abbrev pub profile_checks : Session → ProfileSpec → List Check
  profile_checks session profile =
      (not (session.model == profile.model), "session model does not match profile model") ∷ []

  -- 3. The session, and the profile that the spec has for its kind.
  unfoldable pub read_session :
      AttachOptions → RunSpec → AoDiscoveryResult × GatewayResult → Attempt (Session × ProfileSpec)
  read_session o spec ends = do
    session ← fetch h.decode_session (h.query (session_url o (ends.0)))
    require (session_checks o (ends.1) session)
    profile ← decoded (find_profile session.kind spec.profiles)
    require (profile_checks session profile)
    done (session, profile)

  abbrev pub settings_checks : Session → ProfileSpec → Settings → List Check
  settings_checks session profile s =
      (trim_space s.model == "", "conversation settings returned empty model")
      ∷ (not (trim_space s.model == session.model), "conversation model does not match session")
      ∷ (not (trim_space s.model == profile.model), "conversation model does not match profile")
      ∷ (
        trim_space s.reasoning_effort == "",
        "conversation settings returned empty reasoningEffort",
      )
      ∷ (
        not (trim_space s.reasoning_effort == profile.reasoning_effort),
        "conversation reasoningEffort does not match profile",
      )
      ∷ []

  -- 3.3. The effort of the conversation's settings.
  unfoldable pub read_effort :
      AttachOptions → AoDiscoveryResult → Session × ProfileSpec → Attempt String
  read_effort o ao s = do
    settings ← fetch h.decode_settings (h.query (session_url o ao <> "/conversation?limit=1"))
    require (settings_checks (s.0) (s.1) settings)
    done (trim_space settings.reasoning_effort)

  -- 4.4. The worktrees on a branch, and the only one.
  unfoldable pub worktrees_on : String → List ParsedWorktree → List ParsedWorktree
  worktrees_on branch [] = []
  worktrees_on branch (w ∷ ws) =
      let rest = worktrees_on branch ws in
      if not w.detached && not w.bare && w.branch == branch then w ∷ rest else rest

  abbrev pub only_one : List ParsedWorktree → Option ParsedWorktree
  only_one [] = none
  only_one (w ∷ []) = some w
  only_one (w ∷ v ∷ ws) = none

  abbrev pub place_checks : RunSpec → String → ParsedWorktree → String → List Check
  place_checks spec workspace worktree place =
      (not (equivalent h place workspace), "worktree path does not match execution workspace")
      ∷ (
        not (worktree.head == spec.target.baseline_sha),
        "worktree HEAD does not match expected baselineSha",
      )
      ∷ []

  abbrev pub repository_checks : RunSpec → Session → String → String → List Check
  repository_checks spec session repository other_repository =
      (not (equivalent h repository other_repository), "repository identity mismatch")
      ∷ (
        not (spec.target.expected_branch == session.branch),
        "expectedBranch does not match session/worktree branch",
      )
      ∷ []

  -- 4. The canonical root, its worktree on the session's branch and the repository's identity.
  unfoldable pub bind_worktree :
      RunSpec → String → Session → Attempt (String × ParsedWorktree × String)
  bind_worktree spec workspace session = do
    root ← succeed (canonical_physical_path h spec.target.target_root)
    worktrees ← succeed (list_git_worktrees h root)
    worktree ← decoded (only_one (worktrees_on session.branch worktrees))
    place ← succeed (canonical_physical_path h worktree.path)
    require (place_checks spec workspace worktree place)
    repository ← succeed (get_git_repository_identity h root)
    other_repository ← succeed (get_git_repository_identity h workspace)
    require (repository_checks spec session repository other_repository)
    done (root, worktree, repository)

  -- `err != nil || !targetClean`
  abbrev pub root_is_dirty : Result (List ℕ) → Bool
  root_is_dirty (err x) = true
  root_is_dirty (ok out) = not (is_nil out)

  abbrev pub root_checks : String → List Check
  root_checks root =
      (root_is_dirty (h.surroundings.root_status root), "product root checkout is dirty") ∷ []

  abbrev pub policy_checks : RunSpec → Bool × String → List Check
  policy_checks spec state =
      (
        spec.workspace_policy.execution_workspace_dirty_policy == "require_clean" && not (state.0),
        "execution workspace is dirty but dirtyPolicy is require_clean",
      )
      ∷ []

  -- 5. Whether the workspace is clean, and the digest of what is not.
  unfoldable pub check_policy : RunSpec → String → String → Attempt (Bool × String)
  check_policy spec root workspace = do
    require (root_checks root)
    state ← succeed (check_worktree_dirty_policy h.surroundings.git workspace spec.run_id)
    require (policy_checks spec state)
    done state

  abbrev pub lease_checks : LeaseInspection → List Check
  lease_checks lease = (is_locked lease.observed_state, "lease is LOCKED by another owner") ∷ []

  -- 6. The lease of the run.
  unfoldable pub check_lease : RunSpec → String → Dir → Attempt LeaseInspection
  check_lease spec workspace d = do
    lease ← succeed (inspect_lease h.lease_host workspace spec.run_id "__run__" spec.run_id d)
    require (lease_checks lease)
    done lease

  -- Steps 1 to 6, on the files `d`, which they only read.
  unfoldable pub gather : AttachOptions → Dir → Attempt Findings
  gather o d = do
    target ← read_target o
    ends ← find_endpoints o
    session ← read_session o (target.0) ends
    effort ← read_effort o (ends.0) session
    place ← bind_worktree (target.0) (target.2) (session.0)
    state ← check_policy (target.0) (place.0) (target.2)
    lease ← check_lease (target.0) (target.2) d
    done (record {
      spec = target.0;
      spec_sha256 = target.1;
      workspace = target.2;
      ao = ends.0;
      gateway = ends.1;
      session = session.0;
      profile = session.1;
      effort = effort;
      root = place.0;
      worktree = place.1;
      repository = place.2;
      is_clean = state.0;
      porcelain_sha256 = state.1;
      lease = lease;
    })
