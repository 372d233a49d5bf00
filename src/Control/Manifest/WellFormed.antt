-- ===== src/Control/Manifest/WellFormed.antt =====
-- internal/workforce/control/manifest.go: what a well-formed document is, in the words of the
-- document rather than of the tests.
use agents_coworkers.Prelude.{◌≡◌, ◌⊎◌, true, false, ◌||◌, none}
use mathlib.Core.List.{Memᴰ}
use agents_coworkers.Prelude.Int.{is_pos, int_eq}
use agents_coworkers.Prelude.Text.{is_blank}
use agents_coworkers.Recovery.Lease.{lease_free, lease_owned}
use agents_coworkers.Control.Types.{
  RunManifest, EndpointsManifest, WorktreeBindingManifest, LeaseManifest,
}
use agents_coworkers.Control.Paths.{
  is_64_hex, is_40_hex, is_clean_abs_path, are_paths_same_or_equivalent,
}
use agents_coworkers.Control.Loopback.{validate_loopback_url}
use agents_coworkers.Control.Manifest.{Reader}

-- The worktree is clean, or its changes are on record by their digest and the policy allows them.
abbrev pub Recorded : WorktreeBindingManifest → Type 0
Recorded w =
    ((w.is_clean ≡ true) × (w.porcelain_sha256 ≡ ""))
    ⊎ ((w.is_clean ≡ false)
        × (w.dirty_policy ≡ "allow_dirty_recorded")
        × (is_64_hex w.porcelain_sha256 ≡ true))

-- The lease was free, with no process, or the run's own, with one.
abbrev pub Unlocked : LeaseManifest → Type 0
Unlocked l =
    ((l.observed_state ≡ lease_free) × (int_eq l.observed_pid 0 ≡ true))
    ⊎ ((l.observed_state ≡ lease_owned) × (is_pos l.observed_pid ≡ true))

-- Only a daemon that was found by its run file has a process, and that one is verified.
abbrev pub Discovered : EndpointsManifest → Type 0
Discovered e =
    ((e.ao_discovery_source ≡ "run_file")
      × (is_pos e.ao_pid ≡ true)
      × (e.ao_pid_status ≡ "VERIFIED"))
    ⊎ (((e.ao_discovery_source ≡ "explicit_url") ⊎ (e.ao_discovery_source ≡ "environment_url"))
        × (int_eq e.ao_pid 0 ≡ true)
        × (e.ao_pid_status ≡ "NOT_OBSERVED"))

pub record WellFormed (h : Reader) (m : RunManifest) : Type 0 where
  pub schema : m.schema_version ≡ "run-manifest/v1-draft"
  pub author : m.generated_by ≡ "coworkers attach"
  pub dated : h.is_rfc3339 m.generated_at ≡ true
  pub named : is_blank m.run_id ≡ false
  pub spec_hash : is_64_hex m.run_spec_sha256 ≡ true
  pub root_path : is_clean_abs_path h.host m.target.target_root ≡ true
  pub workspace_path : is_clean_abs_path h.host m.target.execution_workspace ≡ true
  pub repository_path : is_clean_abs_path h.host m.target.repository_identity ≡ true
  pub worktree_path : is_clean_abs_path h.host m.worktree_binding.canonical_path ≡ true
  pub lease_path : is_clean_abs_path h.host m.lease.workspace_root ≡ true
  pub worktree_place :
      are_paths_same_or_equivalent h.host m.worktree_binding.canonical_path
        m.target.execution_workspace
      ≡ true
  pub lease_place :
      are_paths_same_or_equivalent h.host m.lease.workspace_root m.target.execution_workspace ≡ true
  pub session_branch : m.target.branch ≡ m.session_binding.session_branch
  pub worktree_branch : m.target.branch ≡ m.worktree_binding.worktree_branch
  pub worktree_head : m.target.current_head ≡ m.worktree_binding.head
  pub at_baseline : m.target.baseline_sha ≡ m.target.current_head
  pub commits_named : (is_blank m.target.baseline_sha || is_blank m.target.current_head) ≡ false
  pub branch_named : is_blank m.target.branch ≡ false
  pub session_named :
      (is_blank m.session_binding.session_id
        || is_blank m.session_binding.project_id
        || is_blank m.session_binding.session_branch)
      ≡ false
  pub worktree_named :
      (is_blank m.worktree_binding.worktree_branch || is_blank m.worktree_binding.head) ≡ false
  pub profile_named :
      (is_blank m.attached_session_profile.kind
        || is_blank m.attached_session_profile.harness
        || is_blank m.attached_session_profile.model
        || is_blank m.attached_session_profile.reasoning_effort)
      ≡ false
  pub daemon_named : is_blank m.endpoints.ao_identity ≡ false
  pub porcelain_read : m.worktree_binding.verified_porcelain ≡ true
  pub policy_known :
      (m.worktree_binding.dirty_policy ≡ "require_clean")
      ⊎ (m.worktree_binding.dirty_policy ≡ "allow_dirty_recorded")
  pub recorded : Recorded m.worktree_binding
  pub verified_profile : m.attached_session_profile.status ≡ "VERIFIED"
  pub ao_loopback : validate_loopback_url h.parse_url m.endpoints.ao_url ≡ none
  pub gateway_loopback : validate_loopback_url h.parse_url m.endpoints.gateway_probe.url ≡ none
  pub discovered : Discovered m.endpoints
  pub catalog_read :
      (m.endpoints.gateway_probe.catalog_path ≡ "/v1/models")
      × (m.endpoints.gateway_probe.catalog_status ≡ "VERIFIED")
  pub no_credential : m.endpoints.gateway_probe.credential_eligibility ≡ "NOT_OBSERVED"
  pub no_provider_call : m.endpoints.gateway_probe.provider_call_performed ≡ false
  pub model_listed : Memᴰ m.attached_session_profile.model m.endpoints.gateway_probe.observed_models
  pub audit_hash : is_40_hex m.source_provenance.cli_proxy_api_sha ≡ true
  pub audit_only : m.source_provenance.source_audit_only ≡ true
  pub lease_owner : (m.lease.run_owner ≡ m.run_id) × (m.lease.owner_id ≡ m.run_id)
  pub lease_task : m.lease.task_id ≡ "__run__"
  pub unlocked : Unlocked m.lease
