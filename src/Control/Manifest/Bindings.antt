-- ===== src/Control/Manifest/Bindings.antt =====
-- internal/workforce/control/manifest.go: two documents match exactly when they bind alike.
use agents_coworkers.Prelude.{◌≡◌, ◌↔◌, true, String, ◌==◌, eq_iff, ap, subst, some}
use agents_coworkers.Control.Types.{
  RunManifest, SessionBindingManifest, AttachedSessionProfile, SourceProvenance,
}
use agents_coworkers.Control.Paths.{Host, are_paths_same_or_equivalent}
use agents_coworkers.Control.Checks.{◌▸◌}
use agents_coworkers.Control.Manifest.Equalities.{
  all_hold-Holds, Holds-all_hold, both, Holds, same_bool→≡, same_profile→≡, same_profile_refl,
  same_provenance→≡, same_provenance_refl, equal_bools, both_true,
}
use agents_coworkers.Control.Manifest.Matching.{
  same_profile, same_provenance, all_hold, target_tests, worktree_tests, owner_tests,
  is_exact_binding_match,
}

-- What a run is bound to. What is only observed at the time is not in it: the date, the lease's
-- state and process, the daemon's process and how it was found, and the gateway's catalog.
pub record SameBinding (h : Host) (a b : RunManifest) : Type 0 where
  pub same_schema : a.schema_version ≡ b.schema_version
  pub same_run : a.run_id ≡ b.run_id
  pub same_spec : a.run_spec_sha256 ≡ b.run_spec_sha256
  pub same_root : are_paths_same_or_equivalent h a.target.target_root b.target.target_root ≡ true
  pub same_workspace :
      are_paths_same_or_equivalent h a.target.execution_workspace b.target.execution_workspace
      ≡ true
  pub same_repository :
      are_paths_same_or_equivalent h a.target.repository_identity b.target.repository_identity
      ≡ true
  pub same_baseline : a.target.baseline_sha ≡ b.target.baseline_sha
  pub same_current_head : a.target.current_head ≡ b.target.current_head
  pub same_branch : a.target.branch ≡ b.target.branch
  pub same_session : a.session_binding ≡ b.session_binding
  pub same_worktree :
      are_paths_same_or_equivalent h a.worktree_binding.canonical_path
        b.worktree_binding.canonical_path
      ≡ true
  pub same_worktree_branch : a.worktree_binding.worktree_branch ≡ b.worktree_binding.worktree_branch
  pub same_worktree_head : a.worktree_binding.head ≡ b.worktree_binding.head
  pub same_policy : a.worktree_binding.dirty_policy ≡ b.worktree_binding.dirty_policy
  pub same_cleanness : a.worktree_binding.is_clean ≡ b.worktree_binding.is_clean
  pub same_porcelain : a.worktree_binding.porcelain_sha256 ≡ b.worktree_binding.porcelain_sha256
  pub same_verified : a.worktree_binding.verified_porcelain ≡ b.worktree_binding.verified_porcelain
  pub same_profiles : a.attached_session_profile ≡ b.attached_session_profile
  pub same_lease_root :
      are_paths_same_or_equivalent h a.lease.workspace_root b.lease.workspace_root ≡ true
  pub same_run_owner : a.lease.run_owner ≡ b.lease.run_owner
  pub same_task : a.lease.task_id ≡ b.lease.task_id
  pub same_owner : a.lease.owner_id ≡ b.lease.owner_id
  pub same_ao_url : a.endpoints.ao_url ≡ b.endpoints.ao_url
  pub same_ao : a.endpoints.ao_identity ≡ b.endpoints.ao_identity
  pub same_gateway : a.endpoints.gateway_probe.url ≡ b.endpoints.gateway_probe.url
  pub same_source : a.source_provenance ≡ b.source_provenance

Holds-SameBinding :
    (h : Host) (a b : RunManifest)
    → Holds (target_tests h a b)
    → Holds (worktree_tests h a b)
    → Holds (owner_tests h a b)
    → SameBinding h a b
Holds-SameBinding h a b x y z =
    let str = λ (p q : String) (e : (p == q) ≡ true). (eq_iff p q).0 e in
    let (l, owner) = both _ (a.lease.owner_id == b.lease.owner_id) (z.1.0) in
    let (runner, task) = both (a.lease.run_owner == b.lease.run_owner) _ l in
    let (url, ao) = both (a.endpoints.ao_url == b.endpoints.ao_url) _ (z.1.1.0) in
    record {
      same_schema = str _ _ (x.0);
      same_run = str _ _ (x.1.0);
      same_spec = str _ _ (x.1.1.0);
      same_root = x.1.1.1.0;
      same_workspace = x.1.1.1.1.0;
      same_baseline = str _ _ (x.1.1.1.1.1.0);
      same_current_head = str _ _ (x.1.1.1.1.1.1.0);
      same_branch = str _ _ (x.1.1.1.1.1.1.1.0);
      same_repository = x.1.1.1.1.1.1.1.1.0;
      same_session = λ i. record {
        session_id = str _ _ (x.1.1.1.1.1.1.1.1.1.0) i;
        project_id = str _ _ (x.1.1.1.1.1.1.1.1.1.1.0) i;
        session_branch = str _ _ (x.1.1.1.1.1.1.1.1.1.1.1.0) i;
      };
      same_worktree = y.0;
      same_worktree_branch = str _ _ (y.1.0);
      same_worktree_head = str _ _ (y.1.1.0);
      same_policy = str _ _ (y.1.1.1.0);
      same_cleanness = same_bool→≡ _ _ (y.1.1.1.1.0);
      same_porcelain = str _ _ (y.1.1.1.1.1.0);
      same_verified = same_bool→≡ _ _ (y.1.1.1.1.1.1.0);
      same_profiles = same_profile→≡ _ _ (y.1.1.1.1.1.1.1.0);
      same_lease_root = z.0;
      same_run_owner = str _ _ runner;
      same_task = str _ _ task;
      same_owner = str _ _ owner;
      same_ao_url = str _ _ url;
      same_ao = str _ _ ao;
      same_gateway = str _ _ (z.1.1.1.0);
      same_source = same_provenance→≡ _ _ (z.1.1.1.1.0);
    }

binding_matches :
    (h : Host) (a b : RunManifest)
    → SameBinding h a b
    → is_exact_binding_match h (some a) (some b) ≡ true
unfolding is_exact_binding_match
binding_matches h a b s =
    let str = λ (p q : String) (e : p ≡ q). (eq_iff p q).1 e in
    both_true _ _
      (both_true _ _
        (Holds-all_hold (target_tests h a b) (
          str _ _ s.same_schema
          ▸ str _ _ s.same_run
          ▸ str _ _ s.same_spec
          ▸ s.same_root
          ▸ s.same_workspace
          ▸ str _ _ s.same_baseline
          ▸ str _ _ s.same_current_head
          ▸ str _ _ s.same_branch
          ▸ s.same_repository
          ▸ str _ _ (ap (λ (v : SessionBindingManifest). v.session_id) s.same_session)
          ▸ str _ _ (ap (λ (v : SessionBindingManifest). v.project_id) s.same_session)
          ▸ str _ _ (ap (λ (v : SessionBindingManifest). v.session_branch) s.same_session)
          ▸ tt))
        (Holds-all_hold (worktree_tests h a b) (
          s.same_worktree
          ▸ str _ _ s.same_worktree_branch
          ▸ str _ _ s.same_worktree_head
          ▸ str _ _ s.same_policy
          ▸ equal_bools _ _ s.same_cleanness
          ▸ str _ _ s.same_porcelain
          ▸ equal_bools _ _ s.same_verified
          ▸ subst (λ (v : AttachedSessionProfile). same_profile a.attached_session_profile v ≡ true)
              s.same_profiles (same_profile_refl a.attached_session_profile)
          ▸ tt)))
      (Holds-all_hold (owner_tests h a b) (
        s.same_lease_root
        ▸ both_true _ _ (both_true _ _ (str _ _ s.same_run_owner) (str _ _ s.same_task))
            (str _ _ s.same_owner)
        ▸ both_true _ _ (str _ _ s.same_ao_url) (str _ _ s.same_ao)
        ▸ str _ _ s.same_gateway
        ▸ subst (λ (v : SourceProvenance). same_provenance a.source_provenance v ≡ true)
            s.same_source (same_provenance_refl a.source_provenance)
        ▸ tt))

-- Two documents match exactly when they bind alike: in everything but the observations of the
-- moment, with paths compared up to the file system's equivalence.
pub match-SameBinding :
    (h : Host) (a b : RunManifest)
    → (is_exact_binding_match h (some a) (some b) ≡ true) ↔ SameBinding h a b
unfolding is_exact_binding_match
match-SameBinding h a b = (
  λ e.
      let (p, z) = both _ (all_hold (owner_tests h a b)) e in
      let (x, y) = both (all_hold (target_tests h a b)) _ p in
      Holds-SameBinding h a b (all_hold-Holds _ x) (all_hold-Holds _ y) (all_hold-Holds _ z),
  binding_matches h a b,
)
