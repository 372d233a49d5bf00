-- ===== src/Control/Attach/Accepted.antt =====
-- internal/workforce/control/attach.go, `RunAttach`: the manifest that it makes is well formed.
use agents_coworkers.Prelude.{
  Bool, not, ◌&&◌, ◌==◌, String, eq_iff, arith, Bool-cases, inl, ◌≡◌, refl, sym, ap, subst, inr,
  true, false,
}
use agents_coworkers.Prelude.Text.{is_blank}
use agents_coworkers.Recovery.Lease.{Dir}
use agents_coworkers.Control.Types.{RunSpec}
use agents_coworkers.Control.Checks.{Accepts-elim}
use agents_coworkers.Control.Paths.{is_64_hex, is_40_hex, is_clean_abs_path}
use agents_coworkers.Control.Discovery.Usable.{Trusted-Usable}
use agents_coworkers.Control.Manifest.WellFormed.{WellFormed}
use agents_coworkers.Control.Attach.{Site, Findings, AttachOptions}
use agents_coworkers.Control.Attach.Gathered.{Gathered}
use agents_coworkers.Control.Attach.Soundness.{
  Sound, Held, canonical_path, repository_path, same_place, Placed-url, policy-Digested,
  inspect-Held, Held-Unlocked, recorded_state, discovered_lem, trimmed_name, none_blank,
}
use agents_coworkers.Control.Attach.Publishing.{manifest_of}

-- A policy that admits only a clean worktree, as the test of it.
strictly :
    (policy : String) (clean : Bool)
    → (policy ≡ "require_clean" → clean ≡ true)
    → (policy == "require_clean" && not clean) ≡ false
strictly policy clean f = elim (Bool-cases (policy == "require_clean")) [
  | inl e ↦ ground (arith, f ((eq_iff policy "require_clean").0 e))
  | inr e ↦ ground (arith, e)
]

module _ (h : Site) (o : AttachOptions) (d : Dir) (f : Findings) where
  pub Gathered-WellFormed :
      Sound h d → Gathered h o d f → WellFormed h.disk.reader (manifest_of h f)
  unfolding manifest_of is_40_hex
  Gathered-WellFormed s g =
      let reader = h.surroundings.spec_reader in
      let ((raw, parsed, spec), at_flag, at_spec) = g.target in
      let daemon = Trusted-Usable h.surroundings.machine f.ao o.ao_url (g.located.0) in
      let gateway = g.located.1 in
      let (read, session, profile, model) = g.opened in
      let (settings, fetched, set, effort, same_effort, named_effort) = g.settled in
      let (at_root, worktree, place, at_baseline, repository, other, branch) = g.bound in
      let (clean_root, state, policy) = g.judged in
      let (lease, unlocked) = g.inspected in
      let base : is_blank (f.spec).target.baseline_sha ≡ false =
        trimmed_name _ _ (ap (λ (n : RunSpec). n.target.baseline_sha) spec.normalised)
          spec.checked.baseline_named in
      let top : is_blank (f.worktree).head ≡ false =
        subst (λ t. is_blank t ≡ false) (sym at_baseline) base in
      let workspace : is_clean_abs_path h.disk.reader.host f.workspace ≡ true =
        canonical_path h d _ _ s at_flag in
      record {
        schema = refl;
        author = refl;
        dated = s.dated;
        named = trimmed_name _ _ (ap (λ (n : RunSpec). n.run_id) spec.normalised) spec.run_named;
        spec_hash = subst (λ x. is_64_hex x ≡ true) (sym spec.hash) (s.spec_digest raw);
        root_path = canonical_path h d _ _ s at_root;
        workspace_path = workspace;
        repository_path = repository_path h d _ _ s repository;
        worktree_path = workspace;
        lease_path = workspace;
        worktree_place = same_place h.disk.reader.host f.workspace;
        lease_place = same_place h.disk.reader.host f.workspace;
        session_branch = refl;
        worktree_branch = refl;
        worktree_head = refl;
        at_baseline = sym at_baseline;
        commits_named = none_blank _ _ base top;
        branch_named = session.branch_named;
        session_named =
            none_blank _ _ (none_blank _ _ session.id_named session.project_named)
              session.branch_named;
        worktree_named = none_blank _ _ session.branch_named top;
        profile_named =
            none_blank _ _
              (none_blank _ _ (none_blank _ _ session.kind_named session.harness_named)
                session.model_named)
              named_effort;
        daemon_named = daemon.identified_as;
        porcelain_read = refl;
        policy_known = spec.checked.policy;
        recorded =
            recorded_state h.surroundings.git _ _ s.git_digest spec.checked.policy
              (strictly _ _ policy) (policy-Digested h.surroundings.git _ _ _ state);
        verified_profile = refl;
        ao_loopback = Placed-url h d _ s daemon.place;
        gateway_loopback = Placed-url h d _ s (inr (_, gateway.0, (gateway.1).address));
        discovered = discovered_lem _ _ _ daemon.source;
        catalog_read = (refl, (gateway.1).verified);
        no_credential = refl;
        no_provider_call = refl;
        model_listed = session.model_listed;
        audit_hash = refl;
        audit_only = refl;
        lease_owner = (refl, refl);
        lease_task = refl;
        unlocked =
            Held-Unlocked f.lease
              (Accepts-elim Held _ f.lease (inspect-Held h.lease_host _ _ _ _ d s.processes) lease)
              unlocked;
      }
