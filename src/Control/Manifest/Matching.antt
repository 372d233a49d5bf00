-- ===== src/Control/Manifest/Matching.antt =====
-- internal/workforce/control/manifest.go, `IsExactBindingMatch`: when two documents bind alike.
use agents_coworkers.Prelude.{Bool, true, false, ◌&&◌, ◌==◌, Option, none, some, List, [], ◌∷◌}
use agents_coworkers.Control.Types.{RunManifest, AttachedSessionProfile, SourceProvenance}
use agents_coworkers.Control.Paths.{Host, are_paths_same_or_equivalent}

-- `a == b` on Booleans.
abbrev pub same_bool : Bool → Bool → Bool
same_bool true true = true
same_bool true false = false
same_bool false true = false
same_bool false false = true

-- `a == b` on structs.
abbrev pub same_profile : AttachedSessionProfile → AttachedSessionProfile → Bool
same_profile a b =
    a.kind == b.kind
    && a.harness == b.harness
    && a.model == b.model
    && a.reasoning_effort == b.reasoning_effort
    && a.status == b.status

abbrev pub same_provenance : SourceProvenance → SourceProvenance → Bool
same_provenance a b =
    a.cli_proxy_api_sha == b.cli_proxy_api_sha && same_bool a.source_audit_only b.source_audit_only

-- A sequence of `if … { return false }` that ends in `return true`.
unfoldable pub all_hold : List Bool → Bool
all_hold [] = true
all_hold (b ∷ bs) = b && all_hold bs

module _ (h : Host) where
  abbrev pub target_tests : RunManifest → RunManifest → List Bool
  target_tests a b =
      (a.schema_version == b.schema_version)
      ∷ (a.run_id == b.run_id)
      ∷ (a.run_spec_sha256 == b.run_spec_sha256)
      ∷ are_paths_same_or_equivalent h a.target.target_root b.target.target_root
      ∷ are_paths_same_or_equivalent h a.target.execution_workspace b.target.execution_workspace
      ∷ (a.target.baseline_sha == b.target.baseline_sha)
      ∷ (a.target.current_head == b.target.current_head)
      ∷ (a.target.branch == b.target.branch)
      ∷ are_paths_same_or_equivalent h a.target.repository_identity b.target.repository_identity
      ∷ (a.session_binding.session_id == b.session_binding.session_id)
      ∷ (a.session_binding.project_id == b.session_binding.project_id)
      ∷ (a.session_binding.session_branch == b.session_binding.session_branch)
      ∷ []

  abbrev pub worktree_tests : RunManifest → RunManifest → List Bool
  worktree_tests a b =
      are_paths_same_or_equivalent h a.worktree_binding.canonical_path
        b.worktree_binding.canonical_path
      ∷ (a.worktree_binding.worktree_branch == b.worktree_binding.worktree_branch)
      ∷ (a.worktree_binding.head == b.worktree_binding.head)
      ∷ (a.worktree_binding.dirty_policy == b.worktree_binding.dirty_policy)
      ∷ same_bool a.worktree_binding.is_clean b.worktree_binding.is_clean
      ∷ (a.worktree_binding.porcelain_sha256 == b.worktree_binding.porcelain_sha256)
      ∷ same_bool a.worktree_binding.verified_porcelain b.worktree_binding.verified_porcelain
      ∷ same_profile a.attached_session_profile b.attached_session_profile
      ∷ []

  abbrev pub owner_tests : RunManifest → RunManifest → List Bool
  owner_tests a b =
      are_paths_same_or_equivalent h a.lease.workspace_root b.lease.workspace_root
      ∷ (a.lease.run_owner == b.lease.run_owner
          && a.lease.task_id == b.lease.task_id
          && a.lease.owner_id == b.lease.owner_id)
      ∷ (a.endpoints.ao_url == b.endpoints.ao_url
          && a.endpoints.ao_identity == b.endpoints.ao_identity)
      ∷ (a.endpoints.gateway_probe.url == b.endpoints.gateway_probe.url)
      ∷ same_provenance a.source_provenance b.source_provenance
      ∷ []

  -- `IsExactBindingMatch`; `none` is a nil pointer.
  unfoldable pub is_exact_binding_match : Option RunManifest → Option RunManifest → Bool
  is_exact_binding_match none b = false
  is_exact_binding_match (some a) none = false
  is_exact_binding_match (some a) (some b) =
      all_hold (target_tests a b) && all_hold (worktree_tests a b) && all_hold (owner_tests a b)
