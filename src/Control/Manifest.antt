-- ===== src/Control/Manifest.antt =====
-- internal/workforce/control/manifest.go, `ReadManifest` and `IsExactBindingMatch`. The strict JSON
-- decoder, `time.Parse` and `url.Parse` are parameters.
pub mod WellFormed
pub mod Accepted
pub mod Complete
pub mod Matching
pub mod Equalities
pub mod Bindings
pub mod Writing
use agents_coworkers.Prelude.{
  ℕ, Bool, true, false, ◌&&◌, ◌||◌, not, String, ◌==◌, Option, none, some, List, [], ◌∷◌, ◌++◌, any,
  is_nil, if◌then◌else◌,
}
use agents_coworkers.Prelude.Int.{is_pos, int_eq}
use agents_coworkers.Prelude.Text.{is_blank}
use agents_coworkers.Recovery.Errors.{Error, other, Result, ok, err}
use agents_coworkers.Recovery.Lease.{LeaseState, lease_free, lease_owned, lease_locked}
use agents_coworkers.Control.Types.{RunManifest, EndpointsManifest}
use agents_coworkers.Control.Checks.{Check, first_failure}
use agents_coworkers.Control.Paths.{
  Host, is_64_hex, is_40_hex, is_clean_abs_path, are_paths_same_or_equivalent,
}
use agents_coworkers.Control.Loopback.{Url, validate_loopback_url}

-- The functions of other packages that read a document.
pub record Reader : Type 0 where
  pub host : Host
  -- `Decode` with `DisallowUnknownFields`, and whether the input ends there
  pub decode : String → Option (RunManifest × Bool)
  pub is_rfc3339 : String → Bool
  pub parse_url : List ℕ → Option Url

abbrev pub is_free : LeaseState → Bool
is_free lease_free = true
is_free _ = false

abbrev pub is_owned : LeaseState → Bool
is_owned lease_owned = true
is_owned _ = false

abbrev pub is_locked : LeaseState → Bool
is_locked lease_locked = true
is_locked _ = false

abbrev pub failed : Option Error → Bool
failed none = false
failed (some x) = true

-- The switch on the discovery source: whether its case fails.
abbrev pub discovery_failed : EndpointsManifest → Bool
discovery_failed e =
    if e.ao_discovery_source == "run_file"
    then not (is_pos e.ao_pid) || not (e.ao_pid_status == "VERIFIED")
    else if e.ao_discovery_source == "explicit_url" || e.ao_discovery_source == "environment_url"
    then not (int_eq e.ao_pid 0) || not (e.ao_pid_status == "NOT_OBSERVED")
    else true

-- The checks in the order of the source; its numbered groups are the sections' names.
module _ (h : Reader) (m : RunManifest) where
  abbrev pub header_checks : List Check
  header_checks =
      (not (m.schema_version == "run-manifest/v1-draft"), "invalid manifest schemaVersion")
      ∷ (is_blank m.run_id, "manifest missing runId")
      ∷ (not (is_64_hex m.run_spec_sha256), "manifest runSpecSha256 is not a valid 64-hex sha256")
      ∷ (not (h.is_rfc3339 m.generated_at), "manifest generatedAt is not valid RFC3339")
      ∷ (not (m.generated_by == "coworkers attach"), "invalid generatedBy")
      ∷ []

  abbrev pub path_checks : List Check
  path_checks =
      (not (is_clean_abs_path h.host m.target.target_root), "manifest target.targetRoot")
      ∷ (
        not (is_clean_abs_path h.host m.target.execution_workspace),
        "manifest target.executionWorkspace",
      )
      ∷ (
        not (is_clean_abs_path h.host m.target.repository_identity),
        "manifest target.repositoryIdentity",
      )
      ∷ (
        not (is_clean_abs_path h.host m.worktree_binding.canonical_path),
        "manifest worktreeBinding.canonicalPath",
      )
      ∷ (not (is_clean_abs_path h.host m.lease.workspace_root), "manifest lease.workspaceRoot")
      ∷ (
        is_blank m.target.baseline_sha || is_blank m.target.current_head,
        "manifest missing target baselineSha or currentHead",
      )
      ∷ (is_blank m.target.branch, "manifest missing target branch")
      ∷ (
        not (
            are_paths_same_or_equivalent h.host m.worktree_binding.canonical_path
              m.target.execution_workspace),
        "manifest worktreeBinding.canonicalPath does not match target.executionWorkspace",
      )
      ∷ (
        not (
            are_paths_same_or_equivalent h.host m.lease.workspace_root
              m.target.execution_workspace),
        "manifest lease.workspaceRoot does not match target.executionWorkspace",
      )
      ∷ []

  abbrev pub binding_checks : List Check
  binding_checks =
      (
        is_blank m.session_binding.session_id
            || is_blank m.session_binding.project_id
            || is_blank m.session_binding.session_branch,
        "manifest missing session binding fields",
      )
      ∷ (
        is_blank m.worktree_binding.worktree_branch || is_blank m.worktree_binding.head,
        "manifest missing worktree binding fields",
      )
      ∷ (
        not m.worktree_binding.verified_porcelain,
        "manifest worktreeBinding.verifiedPorcelain must be true",
      )
      ∷ (
        not (m.worktree_binding.dirty_policy == "require_clean")
            && not (m.worktree_binding.dirty_policy == "allow_dirty_recorded"),
        "invalid worktree dirtyPolicy",
      )
      ∷ (
        m.worktree_binding.dirty_policy == "require_clean" && not m.worktree_binding.is_clean,
        "manifest worktreeBinding dirtyPolicy is require_clean but isClean is false",
      )
      ∷ (
        m.worktree_binding.is_clean && not (m.worktree_binding.porcelain_sha256 == ""),
        "manifest worktree isClean is true but porcelainSha256 is non-empty",
      )
      ∷ (
        not m.worktree_binding.is_clean
            && not (m.worktree_binding.dirty_policy == "allow_dirty_recorded"),
        "manifest worktree is not clean but dirtyPolicy does not allow it",
      )
      ∷ (
        not m.worktree_binding.is_clean && not (is_64_hex m.worktree_binding.porcelain_sha256),
        "dirty worktree missing valid 64-hex porcelainSha256",
      )
      ∷ (
        not (m.target.branch == m.session_binding.session_branch)
            || not (m.target.branch == m.worktree_binding.worktree_branch),
        "manifest branch binding inconsistency between target, session, and worktree",
      )
      ∷ (
        not (m.target.current_head == m.worktree_binding.head),
        "manifest currentHead does not match worktree head",
      )
      ∷ (
        not (m.target.baseline_sha == m.target.current_head),
        "manifest baselineSha does not match target currentHead",
      )
      ∷ (
        is_blank m.attached_session_profile.kind
            || is_blank m.attached_session_profile.harness
            || is_blank m.attached_session_profile.model
            || is_blank m.attached_session_profile.reasoning_effort,
        "manifest missing attachedSessionProfile fields",
      )
      ∷ (
        not (m.attached_session_profile.status == "VERIFIED"),
        "manifest attachedSessionProfile.status must be VERIFIED",
      )
      ∷ []

  abbrev pub endpoint_checks : List Check
  endpoint_checks =
      (
        failed (validate_loopback_url h.parse_url m.endpoints.ao_url),
        "manifest endpoints.aoUrl invalid",
      )
      ∷ (is_blank m.endpoints.ao_identity, "manifest endpoints.aoIdentity cannot be empty")
      ∷ (discovery_failed m.endpoints, "manifest aoDiscoverySource")
      ∷ (
        failed (validate_loopback_url h.parse_url m.endpoints.gateway_probe.url),
        "manifest endpoints.gatewayProbe.url invalid",
      )
      ∷ (
        not (m.endpoints.gateway_probe.catalog_path == "/v1/models")
            || not (m.endpoints.gateway_probe.catalog_status == "VERIFIED"),
        "invalid gatewayProbe catalogPath or catalogStatus in manifest",
      )
      ∷ (
        m.endpoints.gateway_probe.provider_call_performed,
        "manifest gatewayProbe.providerCallPerformed must be false",
      )
      ∷ (
        not (m.endpoints.gateway_probe.credential_eligibility == "NOT_OBSERVED"),
        "manifest gatewayProbe.credentialEligibility must be NOT_OBSERVED",
      )
      ∷ (
        is_nil m.endpoints.gateway_probe.observed_models,
        "manifest gatewayProbe.observedModels is empty",
      )
      ∷ (
        not (
            any (λ model. model == m.attached_session_profile.model)
              m.endpoints.gateway_probe.observed_models),
        "manifest attachedSessionProfile.model not found in endpoints.gatewayProbe.observedModels",
      )
      ∷ []

  abbrev pub ownership_checks : List Check
  ownership_checks =
      (
        not (is_40_hex m.source_provenance.cli_proxy_api_sha),
        "manifest sourceProvenance.cliProxyApiSha is not a valid 40-hex Git SHA",
      )
      ∷ (
        not m.source_provenance.source_audit_only,
        "manifest sourceProvenance.sourceAuditOnly must be true",
      )
      ∷ (
        not (m.lease.run_owner == m.run_id)
            || not (m.lease.owner_id == m.run_id)
            || not (m.lease.task_id == "__run__"),
        "manifest lease identifiers mismatch runId or task '__run__'",
      )
      ∷ (is_locked m.lease.observed_state, "manifest lease observedState cannot be LOCKED")
      ∷ (
        is_free m.lease.observed_state && not (int_eq m.lease.observed_pid 0),
        "manifest lease is FREE but observedPid is not 0",
      )
      ∷ (
        is_owned m.lease.observed_state && not (is_pos m.lease.observed_pid),
        "manifest lease is OWNED but observedPid is not positive",
      )
      ∷ (
        not (is_free m.lease.observed_state) && not (is_owned m.lease.observed_state),
        "unknown lease observedState in manifest",
      )
      ∷ []

  -- The checks of `ReadManifest` on the decoded document.
  unfoldable pub check_manifest : Option Error
  check_manifest =
      first_failure
        (header_checks ++ path_checks ++ binding_checks ++ endpoint_checks ++ ownership_checks)

abbrev pub accept_decoded : Reader → Option (RunManifest × Bool) → Result RunManifest
accept_decoded h none = err (other "strict decode manifest json")
accept_decoded h (some (m, at_end)) =
    if not at_end
    then err (other "manifest contains trailing tokens or multiple JSON objects")
    else elim (check_manifest h m) [ some x ↦ err x | none ↦ ok m ]

-- `ReadManifest`; `content` is what `os.ReadFile` gives.
unfoldable pub read_manifest : Reader → String → Result String → Result RunManifest
read_manifest h path content =
    if is_blank path
    then err (other "manifest path is required")
    else elim content [ err x ↦ err x | ok text ↦ accept_decoded h (h.decode text) ]
