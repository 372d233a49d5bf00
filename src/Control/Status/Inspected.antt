-- ===== src/Control/Status/Inspected.antt =====
-- internal/workforce/control/status.go: what a report of `RunStatus` says, and its exit codes.
use agents_coworkers.Prelude.{
  ℕ, ◌≡◌, refl, subst, ◌⊎◌, inl, inr, false, String, ◌==◌, eq_iff, Option, none, some, arith,
  if-intro, Bool-cases,
}
use agents_coworkers.Prelude.Text.{trim_slashes, is_blank}
use agents_coworkers.Recovery.Errors.{Result, ok}
use agents_coworkers.Recovery.Lease.{Host as LeaseHost, Dir, LeaseInspection, inspect_lease}
use agents_coworkers.Control.Types.{RunManifest, GatewayResult}
use agents_coworkers.Control.Checks.{same}
use agents_coworkers.Control.Loopback.{validate_loopback_url}
use agents_coworkers.Control.Discovery.{Machine, probe_ao_identity, resolve_gateway_endpoint}
use agents_coworkers.Control.Discovery.Daemon.{Told, Finds-elim, probe_ao_identity-Told}
use agents_coworkers.Control.Discovery.Catalog.{Reached, resolve_gateway_endpoint-Reached}
use agents_coworkers.Control.Manifest.{Reader, failed, read_manifest}
use agents_coworkers.Control.Manifest.Accepted.{read_manifest-WellFormed}
use agents_coworkers.Control.Attempt.{
  Attempt, done, exits, Ends, bind-Ends, after_checks, after_result, after_discovery, last_checks,
}
use agents_coworkers.Control.Status.{
  StatusOptions, StatusReport, ao_url_checks, identity_checks, check_ao_url, gateway_url_checks,
  catalog_checks, check_gateway_url, inspect_run, report_code, run_status,
}

module _ (h : Machine) (r : Reader) (l : LeaseHost) (o : StatusOptions) where
  -- The URL that is given, if one is, is loopback, and the daemon there has the manifest's identity.
  abbrev pub SameDaemon : RunManifest → Type 0
  SameDaemon m =
      (o.ao_url == "") ≡ false
      → (failed (validate_loopback_url h.parse_url o.ao_url) ≡ false)
        × Told h o.ao_url m.endpoints.ao_identity

  -- The URL that is given, if one is, is the manifest's, and the gateway there has answered.
  abbrev pub SameGateway : RunManifest → Type 0
  SameGateway m =
      (o.gateway_url == "") ≡ false
      → (failed (validate_loopback_url h.parse_url o.gateway_url) ≡ false)
        × (trim_slashes o.gateway_url ≡ trim_slashes m.endpoints.gateway_probe.url)
        × ((g : GatewayResult) × Reached h o.gateway_url g)

  named_lem : (id : String) → is_blank id ≡ false → (id == "") ≡ false
  unfolding is_blank
  named_lem id n = elim (Bool-cases (id == "")) [
    | inr e ↦ e
    | inl e ↦ absurd (cc (subst (λ t. is_blank t ≡ false) ((eq_iff id "").0 e) n))
  ]

  check_ao_url-SameDaemon :
      (m : RunManifest)
      → is_blank m.endpoints.ao_identity ≡ false
      → Ends (λ _. SameDaemon m) (check_ao_url h r l o m)
  unfolding check_ao_url
  check_ao_url-SameDaemon m n =
      let P : (Unit {0}) → Type 0 = λ _. SameDaemon m in
      if-intro (Ends P) (o.ao_url == "") (λ e f. absurd (cc))
        λ _. after_checks P (ao_url_checks h r l o.ao_url) _ λ a.
          after_discovery P (probe_ao_identity h o.ao_url) _ λ id p.
            last_checks (SameDaemon m) (identity_checks h r l m id) λ c.
              let named = named_lem m.endpoints.ao_identity n in
              let same_id : id ≡ m.endpoints.ao_identity =
                (eq_iff id m.endpoints.ao_identity).0 (ground (arith, c.0, named)) in
              let told = Finds-elim (Told h o.ao_url) _ id (probe_ao_identity-Told h o.ao_url) p in
              let facts : SameDaemon m = λ _. (a.0, subst (Told h o.ao_url) same_id told) in facts

  check_gateway_url-SameGateway :
      (m : RunManifest) → Ends (λ _. SameGateway m) (check_gateway_url h r l o m)
  unfolding check_gateway_url
  check_gateway_url-SameGateway m =
      let P : (Unit {0}) → Type 0 = λ _. SameGateway m in
      if-intro (Ends P) (o.gateway_url == "") (λ e f. absurd (cc))
        λ _. after_checks P (gateway_url_checks h r l o m) _ λ a.
          after_discovery P (resolve_gateway_endpoint h o.gateway_url) _ λ g p.
            last_checks (SameGateway m) (catalog_checks h r l g) λ c.
              let facts : SameGateway m = λ _. (
                a.0,
                same _ _ (a.1.0),
                (g, resolve_gateway_endpoint-Reached h o.gateway_url g p),
              ) in
              facts

module _ (h : Machine) (r : Reader) (l : LeaseHost) (o : StatusOptions) (content : Result String)
    (d : Dir) where
  -- The manifest that was read, the two overrides, and the lease as it is now.
  pub record Reported (report : StatusReport) : Type 0 where
    pub manifest : RunManifest
    pub lease : LeaseInspection
    pub read : read_manifest r o.manifest_path content ≡ ok manifest
    pub daemon : SameDaemon h r l o manifest
    pub gateway : SameGateway h r l o manifest
    pub live :
        inspect_lease l manifest.lease.workspace_root manifest.lease.run_owner
          manifest.lease.task_id manifest.lease.owner_id d
        ≡ ok lease
    pub live_lease : report.live_lease ≡ lease
    pub status_ok : report.status ≡ "OK"
    pub same_run : report.run_id ≡ manifest.run_id
    pub same_spec : report.run_spec_sha256 ≡ manifest.run_spec_sha256
    pub same_date : report.generated_at ≡ manifest.generated_at
    pub same_target : report.target ≡ manifest.target
    pub same_endpoints : report.endpoints ≡ manifest.endpoints
    pub same_session : report.session_binding ≡ manifest.session_binding
    pub same_worktree : report.worktree_binding ≡ manifest.worktree_binding
    pub same_profile : report.attached_profile ≡ manifest.attached_session_profile

  inspect_run-Reported : Ends Reported (inspect_run h r l o content d)
  unfolding inspect_run
  inspect_run-Reported = after_result Reported (read_manifest r o.manifest_path content) _ λ m e.
      let w = read_manifest-WellFormed r o.manifest_path content m e in
      bind-Ends (λ _. SameDaemon h r l o m) Reported (check_ao_url h r l o m) _
        (check_ao_url-SameDaemon h r l o m w.daemon_named)
        λ _ a.
          bind-Ends (λ _. SameGateway h r l o m) Reported (check_gateway_url h r l o m) _
            (check_gateway_url-SameGateway h r l o m)
            λ _ g.
              after_result Reported
                (inspect_lease l m.lease.workspace_root m.lease.run_owner m.lease.task_id
                  m.lease.owner_id d)
                _
                λ i f. record {
                  manifest = m;
                  lease = i;
                  read = e;
                  daemon = a;
                  gateway = g;
                  live = f;
                  live_lease = refl;
                  status_ok = refl;
                  same_run = refl;
                  same_spec = refl;
                  same_date = refl;
                  same_target = refl;
                  same_endpoints = refl;
                  same_session = refl;
                  same_worktree = refl;
                  same_profile = refl;
                }

  -- A report and the code 0, or none and the code 2 or 3.
  abbrev pub Reports : Option StatusReport × ℕ → Type 0
  Reports x =
      ((report : StatusReport) × (x ≡ (some report, 0)) × Reported report)
      ⊎ ((x.0 ≡ none) × ((x.1 ≡ 2) ⊎ (x.1 ≡ 3)))

  reported : (a : Attempt StatusReport) → Ends Reported a → Reports (report_code h r l a)
  reported (done report) e = inl (report, refl, e)
  reported (exits c) e = inr (refl, e)

  -- The status command ends with a report and the code 0, or without one and with the code 2 or 3. A
  -- report has status OK and repeats the fields of a manifest that `ReadManifest` accepts, but its
  -- lease is the manifest's lease as it is in the files now. An URL of a daemon that was given is
  -- loopback, and the daemon there answered the request for its identity with the manifest's; an URL of a gateway that was given is loopback and the manifest's, and
  -- the gateway there has served its catalog.
  pub run_status-Reports : Reports (run_status h r l o content d)
  unfolding run_status
  run_status-Reports = reported (inspect_run h r l o content d) inspect_run-Reported
