-- ===== src/Control/Attach/Gathered.antt =====
-- internal/workforce/control/attach.go, `RunAttach`, steps 1 to 6: what has been read when all of them
-- succeed.
use agents_coworkers.Prelude.{ℕ, ◌≡◌, refl, Bool, true, false, String, eq_iff, List, [], ◌∷◌, arith}
use agents_coworkers.Recovery.Errors.{Result, ok, err}
use agents_coworkers.Recovery.Lease.{Dir, LeaseInspection, inspect_lease}
use agents_coworkers.Control.Types.{RunSpec, AoDiscoveryResult, GatewayResult}
use agents_coworkers.Control.Checks.{same, holds}
use agents_coworkers.Control.RunSpec.{parse_and_validate_run_spec}
use agents_coworkers.Control.RunSpec.Valid.{ValidSpec, parse_and_validate_run_spec-ValidSpec}
use agents_coworkers.Control.Discovery.Trust.{Trusted, resolve_ao_endpoint-Trusted}
use agents_coworkers.Control.Discovery.Catalog.{Reached, resolve_gateway_endpoint-Reached}
use agents_coworkers.Control.Worktree.{check_worktree_dirty_policy}
use agents_coworkers.Control.Discovery.{resolve_ao_endpoint, resolve_gateway_endpoint}
use agents_coworkers.Control.Manifest.{is_locked}
use agents_coworkers.Control.GitWorktrees.{ParsedWorktree}
use agents_coworkers.Control.Attempt.{
  Ends, bind-Ends, after_checks, after_result, after_discovery, after_option,
}
use agents_coworkers.Control.Attach.{
  AttachOptions, Session, Site, Findings, equivalent, canonical_physical_path,
  get_git_repository_identity, list_git_worktrees,
}
use agents_coworkers.Control.Attach.Opened.{Opened, read_session-Opened, Set, read_effort-Set}
use agents_coworkers.Control.Attach.Selection.{Only, only_one-Only}
use agents_coworkers.Control.Attach.Reading.{
  target_checks, place_checks, repository_checks, root_checks, policy_checks, lease_checks,
  read_target, find_endpoints, read_session, read_effort, worktrees_on, only_one, bind_worktree,
  root_is_dirty, check_policy, check_lease, gather,
}

module _ (h : Site) (o : AttachOptions) where
  -- The spec of the file, which is valid, and the workspace that the flag and the spec mean.
  abbrev pub Target : RunSpec × String × String → Type 0
  Target t =
      ((raw : String) × (parse_and_validate_run_spec h.surroundings.spec_reader raw ≡ ok (t.0, t.1))
        × ValidSpec h.surroundings.spec_reader raw (t.0, t.1))
      × (canonical_physical_path h o.workspace ≡ ok (t.2))
      × (equivalent h (t.2) (t.0).target.execution_workspace ≡ true)

  read_target-Target : Ends Target (read_target h o)
  unfolding read_target
  read_target-Target = after_result Target h.surroundings.read_spec _ λ raw _.
      after_result Target (parse_and_validate_run_spec _ raw) _ λ p e.
        after_result Target (canonical_physical_path h o.workspace) _ λ w c.
          after_checks Target (target_checks h w (p.0)) _ λ r.
            let facts : Target (p.0, p.1, w) = (
              (raw, e, parse_and_validate_run_spec-ValidSpec h.surroundings.spec_reader raw p e),
              c,
              holds _ (r.0),
            ) in
            facts

  abbrev pub Located : AoDiscoveryResult × GatewayResult → Type 0
  Located e =
      Trusted h.surroundings.machine o.ao_url (e.0)
      × Reached h.surroundings.machine o.gateway_url (e.1)

  find_endpoints-Located : Ends Located (find_endpoints h o)
  unfolding find_endpoints
  find_endpoints-Located = after_discovery Located (resolve_ao_endpoint _ o.ao_url) _ λ a e.
      after_discovery Located (resolve_gateway_endpoint _ o.gateway_url) _ λ g f.
        let facts : Located (a, g) = (
          resolve_ao_endpoint-Trusted h.surroundings.machine o.ao_url a e,
          resolve_gateway_endpoint-Reached h.surroundings.machine o.gateway_url g f,
        ) in
        facts

  -- The one worktree on the session's branch is the workspace, at the baseline, and in the
  -- repository of the root.
  abbrev pub Bound : RunSpec → String → Session → String × ParsedWorktree × String → Type 0
  Bound spec workspace session b =
      (canonical_physical_path h spec.target.target_root ≡ ok (b.0))
      × ((ws : List ParsedWorktree) × (list_git_worktrees h (b.0) ≡ ok ws)
          × Only h session.branch ws (b.1))
      × ((place : String) × (canonical_physical_path h (b.1).path ≡ ok place)
          × (equivalent h place workspace ≡ true))
      × ((b.1).head ≡ spec.target.baseline_sha)
      × (get_git_repository_identity h (b.0) ≡ ok (b.2))
      × ((other : String) × (get_git_repository_identity h workspace ≡ ok other)
          × (equivalent h (b.2) other ≡ true))
      × (spec.target.expected_branch ≡ session.branch)

  bind_worktree-Bound :
      (spec : RunSpec) (workspace : String) (session : Session)
      → Ends (Bound spec workspace session) (bind_worktree h spec workspace session)
  unfolding bind_worktree
  bind_worktree-Bound spec workspace session =
      let Q = Bound spec workspace session in
      after_result Q (canonical_physical_path h spec.target.target_root) _ λ root e.
        after_result Q (list_git_worktrees h root) _ λ ws l.
          after_option Q (only_one h (worktrees_on h session.branch ws)) _ λ w n.
            after_result Q (canonical_physical_path h w.path) _ λ place p.
              after_checks Q (place_checks h spec workspace w place) _ λ c.
                after_result Q (get_git_repository_identity h root) _ λ id i.
                  after_result Q (get_git_repository_identity h workspace) _ λ other j.
                    after_checks Q (repository_checks h spec session id other) _ λ r.
                      let facts : Bound spec workspace session (root, w, id) = (
                        e,
                        (ws, l, only_one-Only h session.branch ws w n),
                        (place, p, holds _ (c.0)),
                        same w.head spec.target.baseline_sha (c.1.0),
                        i,
                        (other, j, holds _ (r.0)),
                        same spec.target.expected_branch session.branch (r.1.0),
                      ) in
                      facts

  abbrev pub Judged : RunSpec → String → String → Bool × String → Type 0
  Judged spec root workspace state =
      (h.surroundings.root_status root ≡ ok [])
      × (check_worktree_dirty_policy h.surroundings.git workspace spec.run_id ≡ ok state)
      × (spec.workspace_policy.execution_workspace_dirty_policy ≡ "require_clean" → state.0 ≡ true)

  clean_root : (r : Result (List ℕ)) → root_is_dirty h r ≡ false → r ≡ ok []
  clean_root (err x) e = absurd (cc)
  clean_root (ok []) e = refl
  clean_root (ok (c ∷ cs)) e = absurd (cc)

  check_policy-Judged :
      (spec : RunSpec) (root workspace : String)
      → Ends (Judged spec root workspace) (check_policy h spec root workspace)
  unfolding check_policy
  check_policy-Judged spec root workspace =
      let Q = Judged spec root workspace in
      after_checks Q (root_checks h root) _ λ c.
        after_result Q (check_worktree_dirty_policy h.surroundings.git workspace spec.run_id) _
          λ state e. after_checks Q (policy_checks h spec state) _ λ p.
            let facts : Judged spec root workspace state = (
              clean_root _ (c.0),
              e,
              λ q.
                  let strict =
                    (eq_iff spec.workspace_policy.execution_workspace_dirty_policy
                        "require_clean").1
                      q in
                  ground (arith, p.0, strict),
            ) in
            facts

  abbrev pub Inspected : RunSpec → String → Dir → LeaseInspection → Type 0
  Inspected spec workspace d lease =
      (inspect_lease h.lease_host workspace spec.run_id "__run__" spec.run_id d ≡ ok lease)
      × (is_locked lease.observed_state ≡ false)

  check_lease-Inspected :
      (spec : RunSpec) (workspace : String) (d : Dir)
      → Ends (Inspected spec workspace d) (check_lease h spec workspace d)
  unfolding check_lease
  check_lease-Inspected spec workspace d =
      let Q = Inspected spec workspace d in
      after_result Q (inspect_lease h.lease_host workspace spec.run_id "__run__" spec.run_id d) _
        λ lease e.
          after_checks Q (lease_checks h lease) _
            λ c. let facts : Inspected spec workspace d lease = (e, c.0) in facts

  -- What steps 1 to 6 establish together.
  pub record Gathered (d : Dir) (f : Findings) : Type 0 where
    pub target : Target (f.spec, f.spec_sha256, f.workspace)
    pub located : Located (f.ao, f.gateway)
    pub opened : Opened h o f.spec (f.ao, f.gateway) (f.session, f.profile)
    pub settled : Set h o f.ao (f.session, f.profile) f.effort
    pub bound : Bound f.spec f.workspace f.session (f.root, f.worktree, f.repository)
    pub judged : Judged f.spec f.root f.workspace (f.is_clean, f.porcelain_sha256)
    pub inspected : Inspected f.spec f.workspace d f.lease

  pub gather-Gathered : (d : Dir) → Ends (Gathered d) (gather h o d)
  unfolding gather
  gather-Gathered d =
      let Q = Gathered d in
      bind-Ends Target Q (read_target h o) _ read_target-Target λ t a.
        bind-Ends Located Q (find_endpoints h o) _ find_endpoints-Located λ e b.
          bind-Ends (Opened h o (t.0) e) Q (read_session h o (t.0) e) _
            (read_session-Opened h o (t.0) e)
            λ s c.
              bind-Ends (Set h o (e.0) s) Q (read_effort h o (e.0) s) _
                (read_effort-Set h o (e.0) s)
                λ r i.
                  bind-Ends (Bound (t.0) (t.2) (s.0)) Q (bind_worktree h (t.0) (t.2) (s.0)) _
                    (bind_worktree-Bound (t.0) (t.2) (s.0))
                    λ p j.
                      bind-Ends (Judged (t.0) (p.0) (t.2)) Q (check_policy h (t.0) (p.0) (t.2)) _
                        (check_policy-Judged (t.0) (p.0) (t.2))
                        λ w k.
                          bind-Ends (Inspected (t.0) (t.2) d) Q (check_lease h (t.0) (t.2) d) _
                            (check_lease-Inspected (t.0) (t.2) d)
                            λ l m. record {
                              target = a;
                              located = b;
                              opened = c;
                              settled = i;
                              bound = j;
                              judged = k;
                              inspected = m;
                            }
