-- ===== src/Control/Status.antt =====
-- internal/workforce/control/status.go, `ParseStatusFlags` and `RunStatus`: the report and the exit
-- code. The flag package is a parameter, and so is what the models of the other files take. What is
-- printed is not modelled.
pub mod Inspected
use agents_coworkers.Prelude.{
  ℕ, Bool, true, false, ◌&&◌, not, String, ◌==◌, Option, none, some, List, [], ◌∷◌, if◌then◌else◌,
}
use agents_coworkers.Prelude.Text.{trim_slashes, trim_space}
use agents_coworkers.Recovery.Errors.{Error, Result, ok, err}
use agents_coworkers.Recovery.Lease.{Host as LeaseHost, Dir, LeaseInspection, inspect_lease}
use agents_coworkers.Control.Types.{
  RunManifest, TargetManifest, EndpointsManifest, SessionBindingManifest, WorktreeBindingManifest,
  AttachedSessionProfile, GatewayResult,
}
use agents_coworkers.Control.Checks.{Check, first_failure}
use agents_coworkers.Control.Loopback.{validate_loopback_url}
use agents_coworkers.Control.Discovery.{Machine, probe_ao_identity, resolve_gateway_endpoint}
use agents_coworkers.Control.Manifest.{Reader, failed, read_manifest}
use agents_coworkers.Control.Attempt.{Attempt, done, exits, ◌>>=◌, ◌>>◌, require, succeed, discover}

pub record StatusOptions : Type 0 where
  pub manifest_path : String
  pub ao_url : String
  pub gateway_url : String
  pub json : Bool

pub record StatusReport : Type 0 where
  pub status : String
  pub run_id : String
  pub run_spec_sha256 : String
  pub generated_at : String
  pub target : TargetManifest
  pub endpoints : EndpointsManifest
  pub session_binding : SessionBindingManifest
  pub worktree_binding : WorktreeBindingManifest
  pub attached_profile : AttachedSessionProfile
  pub live_lease : LeaseInspection

-- `ParseStatusFlags`, on what `fs.Parse` reads, `none` if it fails.
unfoldable pub parse_status_flags : Option StatusOptions → Option StatusOptions × ℕ
parse_status_flags none = (none, 1)
parse_status_flags (some o) = if trim_space o.manifest_path == "" then (none, 2) else (some o, 0)

module _ (h : Machine) (r : Reader) (l : LeaseHost) where
  abbrev pub ao_url_checks : String → List Check
  ao_url_checks url =
      (failed (validate_loopback_url h.parse_url url), "status: --ao-url invalid") ∷ []

  abbrev pub identity_checks : RunManifest → String → List Check
  identity_checks m id =
      (
        not (m.endpoints.ao_identity == "") && not (id == m.endpoints.ao_identity),
        "status: AO identity mismatch",
      )
      ∷ []

  -- 2. The override of the daemon's URL.
  unfoldable pub check_ao_url : StatusOptions → RunManifest → Attempt (Unit {0})
  check_ao_url o m = if o.ao_url == "" then done tt else do
    require (ao_url_checks o.ao_url)
    id ← discover (probe_ao_identity h o.ao_url)
    require (identity_checks m id)

  abbrev pub gateway_url_checks : StatusOptions → RunManifest → List Check
  gateway_url_checks o m =
      (failed (validate_loopback_url h.parse_url o.gateway_url), "status: --gateway-url invalid")
      ∷ (
        not (trim_slashes o.gateway_url == trim_slashes m.endpoints.gateway_probe.url),
        "status: gateway override does not match bound manifest gateway",
      )
      ∷ []

  abbrev pub catalog_checks : GatewayResult → List Check
  catalog_checks g =
      (not (g.catalog_status == "VERIFIED"), "status: gateway catalog not verified") ∷ []

  -- 3. The override of the gateway's URL.
  unfoldable pub check_gateway_url : StatusOptions → RunManifest → Attempt (Unit {0})
  check_gateway_url o m = if o.gateway_url == "" then done tt else do
    require (gateway_url_checks o m)
    g ← discover (resolve_gateway_endpoint h o.gateway_url)
    require (catalog_checks g)

  abbrev pub report_of : RunManifest → LeaseInspection → StatusReport
  report_of m lease = record {
    status = "OK";
    run_id = m.run_id;
    run_spec_sha256 = m.run_spec_sha256;
    generated_at = m.generated_at;
    target = m.target;
    endpoints = m.endpoints;
    session_binding = m.session_binding;
    worktree_binding = m.worktree_binding;
    attached_profile = m.attached_session_profile;
    live_lease = lease;
  }

  -- `RunStatus`, where `content` is what `os.ReadFile` gives for the manifest, up to the output.
  unfoldable pub inspect_run : StatusOptions → Result String → Dir → Attempt StatusReport
  inspect_run o content d = do
    m ← succeed (read_manifest r o.manifest_path content)
    check_ao_url o m
    check_gateway_url o m
    lease ← succeed (
        inspect_lease l m.lease.workspace_root m.lease.run_owner m.lease.task_id m.lease.owner_id d)
    done (report_of m lease)

  abbrev pub report_code : Attempt StatusReport → Option StatusReport × ℕ
  report_code (done report) = (some report, 0)
  report_code (exits code) = (none, code)

  -- `RunStatus`
  unfoldable pub run_status : StatusOptions → Result String → Dir → Option StatusReport × ℕ
  run_status o content d = report_code (inspect_run o content d)
