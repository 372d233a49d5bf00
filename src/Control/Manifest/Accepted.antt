-- ===== src/Control/Manifest/Accepted.antt =====
-- internal/workforce/control/manifest.go: what holds of a document that `ReadManifest` accepts.
use agents_coworkers.Prelude.{
  ◌≡◌, refl, ◌⊎◌, inl, inr, Bool, true, false, ◌&&◌, ◌||◌, not, String, ◌==◌, eq_iff, Option, none,
  some, ◌++◌, arith, Bool-cases, if-intro, option-intro,
}
use agents_coworkers.Prelude.Int.{ℤ, is_pos, int_eq}
use agents_coworkers.Prelude.Text.{is_blank}
use agents_coworkers.Recovery.Errors.{Error, Result, ok, result-intro}
use agents_coworkers.Recovery.Lease.{
  LeaseState, lease_free, lease_owned, lease_locked, unknown_lease_state,
}
use agents_coworkers.Control.Types.{RunManifest, EndpointsManifest, WorktreeBindingManifest}
use agents_coworkers.Control.Checks.{
  Accepts, Accepts-elim, Passes, first_failure-Passes, Passes-append, same, holds, neither,
}
use agents_coworkers.Control.Paths.{is_64_hex}
use agents_coworkers.Control.Manifest.WellFormed.{Recorded, Discovered, WellFormed}
use agents_coworkers.Control.Checks.{any_same}
use agents_coworkers.Control.Manifest.{
  Reader, is_free, is_owned, failed, header_checks, path_checks, binding_checks, discovery_failed,
  endpoint_checks, ownership_checks, check_manifest, accept_decoded, read_manifest,
}

not_failed : (o : Option Error) → failed o ≡ false → o ≡ none
not_failed none h = refl
not_failed (some x) h = absurd (cc)

neither_differs : (a b c d : String) → (not (a == b) || not (c == d)) ≡ false → (a ≡ b) × (c ≡ d)
neither_differs a b c d h =
    let (p, q) = neither (not (a == b)) (not (c == d)) h in (same a b p, same c d q)

policy_lem :
    (x : String)
    → (not (x == "require_clean") && not (x == "allow_dirty_recorded")) ≡ false
    → (x ≡ "require_clean") ⊎ (x ≡ "allow_dirty_recorded")
policy_lem x h = elim (Bool-cases (x == "require_clean")) [
  | inl e ↦ inl ((eq_iff x "require_clean").0 e)
  | inr e ↦ inr (same x "allow_dirty_recorded" (ground (arith, h, e)))
]

recorded_lem :
    (w : WorktreeBindingManifest)
    → (w.is_clean && not (w.porcelain_sha256 == "")) ≡ false
    → (not w.is_clean && not (w.dirty_policy == "allow_dirty_recorded")) ≡ false
    → (not w.is_clean && not (is_64_hex w.porcelain_sha256)) ≡ false
    → Recorded w
recorded_lem w p q r = elim (Bool-cases w.is_clean) [
  | inl c ↦ inl (c, same w.porcelain_sha256 "" (ground (arith, p, c)))
  | inr c ↦ inr (
    c,
    same w.dirty_policy "allow_dirty_recorded" (ground (arith, q, c)),
    holds (is_64_hex w.porcelain_sha256) (ground (arith, r, c)),
  )
]

state_lem :
    (s : LeaseState) (pid : ℤ)
    → (is_free s && not (int_eq pid 0)) ≡ false
    → (is_owned s && not (is_pos pid)) ≡ false
    → (not (is_free s) && not (is_owned s)) ≡ false
    → ((s ≡ lease_free) × (int_eq pid 0 ≡ true)) ⊎ ((s ≡ lease_owned) × (is_pos pid ≡ true))
state_lem lease_free pid p q r = inl (refl, holds (int_eq pid 0) p)
state_lem lease_owned pid p q r = inr (refl, holds (is_pos pid) q)
state_lem lease_locked pid p q r = absurd (cc)
state_lem (unknown_lease_state x) pid p q r = absurd (cc)

discovered_lem : (e : EndpointsManifest) → discovery_failed e ≡ false → Discovered e
discovered_lem e =
    if-intro (λ b. b ≡ false → Discovered e) (e.ao_discovery_source == "run_file")
      (λ r h.
        let (p, q) = neither (not (is_pos e.ao_pid)) (not (e.ao_pid_status == "VERIFIED")) h in
        inl (
          (eq_iff e.ao_discovery_source "run_file").0 r,
          holds (is_pos e.ao_pid) p,
          same e.ao_pid_status "VERIFIED" q,
        ))
      λ _.
        if-intro (λ b. b ≡ false → Discovered e)
          (e.ao_discovery_source == "explicit_url" || e.ao_discovery_source == "environment_url")
          (λ r h.
            let (p, q) =
              neither (not (int_eq e.ao_pid 0)) (not (e.ao_pid_status == "NOT_OBSERVED")) h in
            inr (either r, holds (int_eq e.ao_pid 0) p, same e.ao_pid_status "NOT_OBSERVED" q))
          (λ _ h. absurd (cc))
  where
    either :
        (e.ao_discovery_source == "explicit_url" || e.ao_discovery_source == "environment_url")
          ≡ true
        → (e.ao_discovery_source ≡ "explicit_url") ⊎ (e.ao_discovery_source ≡ "environment_url")
    either r = elim (Bool-cases (e.ao_discovery_source == "explicit_url")) [
      | inl x ↦ inl ((eq_iff e.ao_discovery_source "explicit_url").0 x)
      | inr x ↦ inr ((eq_iff e.ao_discovery_source "environment_url").0 (ground (arith, r, x)))
    ]

Passes-WellFormed :
    (h : Reader) (m : RunManifest)
    → Passes (header_checks h m)
    → Passes (path_checks h m)
    → Passes (binding_checks h m)
    → Passes (endpoint_checks h m)
    → Passes (ownership_checks h m)
    → WellFormed h m
Passes-WellFormed h m a b c d e =
    let (session, worktree) = neither_differs _ _ _ _ (c.1.1.1.1.1.1.1.1.0) in
    let (owners, task) = neither _ _ (e.1.1.0) in
    record {
      schema = same m.schema_version "run-manifest/v1-draft" (a.0);
      author = same m.generated_by "coworkers attach" (a.1.1.1.1.0);
      dated = holds (h.is_rfc3339 m.generated_at) (a.1.1.1.0);
      named = (a.1.0);
      spec_hash = holds (is_64_hex m.run_spec_sha256) (a.1.1.0);
      root_path = holds _ (b.0);
      workspace_path = holds _ (b.1.0);
      repository_path = holds _ (b.1.1.0);
      worktree_path = holds _ (b.1.1.1.0);
      lease_path = holds _ (b.1.1.1.1.0);
      worktree_place = holds _ (b.1.1.1.1.1.1.1.0);
      lease_place = holds _ (b.1.1.1.1.1.1.1.1.0);
      session_branch = session;
      worktree_branch = worktree;
      worktree_head = same _ _ (c.1.1.1.1.1.1.1.1.1.0);
      at_baseline = same _ _ (c.1.1.1.1.1.1.1.1.1.1.0);
      commits_named = (b.1.1.1.1.1.0);
      branch_named = (b.1.1.1.1.1.1.0);
      session_named = (c.0);
      worktree_named = (c.1.0);
      profile_named = (c.1.1.1.1.1.1.1.1.1.1.1.0);
      daemon_named = (d.1.0);
      porcelain_read = holds _ (c.1.1.0);
      policy_known = policy_lem m.worktree_binding.dirty_policy (c.1.1.1.0);
      recorded =
          recorded_lem m.worktree_binding (c.1.1.1.1.1.0) (c.1.1.1.1.1.1.0) (c.1.1.1.1.1.1.1.0);
      verified_profile = same _ _ (c.1.1.1.1.1.1.1.1.1.1.1.1.0);
      ao_loopback = not_failed _ (d.0);
      gateway_loopback = not_failed _ (d.1.1.1.0);
      discovered = discovered_lem m.endpoints (d.1.1.0);
      catalog_read = neither_differs _ _ _ _ (d.1.1.1.1.0);
      no_credential = same _ _ (d.1.1.1.1.1.1.0);
      no_provider_call = (d.1.1.1.1.1.0);
      model_listed = any_same _ _ (holds _ (d.1.1.1.1.1.1.1.1.0));
      audit_hash = holds _ (e.0);
      audit_only = holds _ (e.1.0);
      lease_owner = neither_differs _ _ _ _ owners;
      lease_task = same _ _ task;
      unlocked =
          state_lem m.lease.observed_state m.lease.observed_pid (e.1.1.1.1.0) (e.1.1.1.1.1.0)
            (e.1.1.1.1.1.1.0);
    }

checked-WellFormed : (h : Reader) (m : RunManifest) → check_manifest h m ≡ none → WellFormed h m
unfolding check_manifest
checked-WellFormed h m e =
    let a = header_checks h m in
    let b = path_checks h m in
    let c = binding_checks h m in
    let d = endpoint_checks h m in
    let k = ownership_checks h m in
    let (p, o) =
      Passes-append (a ++ b ++ c ++ d) k (first_failure-Passes (a ++ b ++ c ++ d ++ k) e) in
    let (q, v) = Passes-append (a ++ b ++ c) d p in
    let (r, w) = Passes-append (a ++ b) c q in
    let (x, y) = Passes-append a b r in Passes-WellFormed h m x y w v o

read_manifest-Accepts :
    (h : Reader) (path : String) (content : Result String)
    → Accepts (WellFormed h) (read_manifest h path content)
unfolding read_manifest
read_manifest-Accepts h path content =
    if-intro (Accepts (WellFormed h)) (is_blank path) (λ _. tt)
      λ _.
        result-intro (Accepts (WellFormed h)) content (λ x _. tt)
          (λ text _. decoded (h.decode text))
  where
    decoded : (o : Option (RunManifest × Bool)) → Accepts (WellFormed h) (accept_decoded h o)
    decoded none = tt
    decoded (some (m, at_end)) =
        if-intro (Accepts (WellFormed h)) (not at_end) (λ _. tt)
          λ _.
            option-intro (Accepts (WellFormed h)) (check_manifest h m)
              (λ e. checked-WellFormed h m e) (λ x _. tt)

-- A document that `ReadManifest` accepts is well formed: its schema and author are the expected
-- ones; its date, its digests and its paths have their forms, and no name is blank; one branch, one
-- head and one workspace stand in all of its parts; the worktree is clean, or dirty by policy with a
-- digest on record; the endpoints are loopback, and only one found by a run file has a process; the
-- profile's model is in the gateway's catalog, which was read without a provider call; and the lease
-- names the run and `__run__`, and was free without a process or owned with one.
pub read_manifest-WellFormed :
    (h : Reader) (path : String) (content : Result String) (m : RunManifest)
    → read_manifest h path content ≡ ok m
    → WellFormed h m
read_manifest-WellFormed h path content m e =
    Accepts-elim (WellFormed h) (read_manifest h path content) m
      (read_manifest-Accepts h path content) e
