-- ===== src/Examples/Doctors.antt =====
-- Endpoints that internal/workforce/control finds, and a run of its doctor that passes.
use agents_coworkers.Prelude.{◌≡◌, refl, true, false, ◌==◌, none, some, [], ◌∷◌, if◌then◌else◌}
use agents_coworkers.Prelude.Int.{pos}
use agents_coworkers.Prelude.Text.{
  trim_slashes, is_blank, is_space, same_codes, lower, trim, trim_space, split_on,
}
use agents_coworkers.Recovery.Errors.{ok}
use agents_coworkers.Control.Types.{AoDiscoveryResult, GatewayResult}
use agents_coworkers.Control.Checks.{first_failure}
use agents_coworkers.Control.Loopback.{validate_loopback_url, check_url}
use agents_coworkers.Control.RunSpec.{
  check_tools, check_profiles, check_policies, check_normal, check_workspace, validate_spec,
  parse_and_validate_run_spec,
}
use agents_coworkers.Control.Worktree.{
  keep_records, join_records, filter_exact_lease_artifact, check_worktree_dirty_policy,
}
use agents_coworkers.Control.Discovery.{
  found, answered, content, Machine, probe_ao_identity, resolve_run_file, collect, the_daemon,
  resolve_ao_endpoint, resolve_gateway_endpoint,
}
use agents_coworkers.Control.Discovery.Trust.{Trusted, resolve_ao_endpoint-Trusted}
use agents_coworkers.Control.Doctor.{
  Surroundings, check_catalog_models, check_required_tools, check_baseline, judge_workspace,
  check_execution_workspace, check_root, check_gateway, check_ao, examine, run_doctor,
}
use agents_coworkers.Control.Doctor.Stages.{Ends}
use agents_coworkers.Control.Doctor.Health.{Healthy, run_doctor-Healthy}
use agents_coworkers.Examples.Documents.{local}
use agents_coworkers.Examples.Specs.{reader}
use agents_coworkers.Examples.Worktrees.{git}

-- The daemon has written its run file into the home directory.
abbrev pub machine : Machine
machine = record {
  get = λ u. answered 200 (some "answer");
  env = λ v. "";
  home = "/home";
  join = λ a b. b;
  canonical = λ p. p;
  normalised = λ p. p;
  exists = λ p. true;
  read_file = λ p. content "running";
  is_alive = λ p. true;
  decimal = λ n. "7";
  parse_url = λ cs. some local;
  decode_running = λ t. some (record { port = pos 7; pid = pos 42 });
  decode_identity = λ t. some "ao-1";
  decode_models = λ t. some (" m " ∷ "" ∷ []);
}

abbrev daemon : AoDiscoveryResult
daemon = record {
  url = "http://127.0.0.1:7";
  identity = "ao-1";
  discovery_source = "run_file";
  pid = pos 42;
  pid_status = "VERIFIED";
}

daemon_found : resolve_ao_endpoint machine "" ≡ found daemon
unfolding resolve_ao_endpoint collect resolve_run_file probe_ao_identity the_daemon trim_slashes
    is_blank is_space
daemon_found = refl

resolve_ao_endpoint-Trusted_example : Trusted machine "" daemon
resolve_ao_endpoint-Trusted_example = resolve_ao_endpoint-Trusted machine "" daemon daemon_found

abbrev pub gateway : GatewayResult
gateway = record {
  url = "http://127.0.0.1:8317";
  catalog_status = "VERIFIED";
  observed_models = "m" ∷ [];
  provider_call_performed = false;
  credential_eligibility = "NOT_OBSERVED";
}

abbrev pub surroundings : Surroundings
surroundings = record {
  spec_reader = reader;
  machine = machine;
  git = record git { status = λ w. ok [] };
  read_spec = ok "raw";
  root_status = λ p. ok [];
  commit_exists = λ p c. true;
  look_path = λ t. if t == "git" then some "/usr/bin/git" else none;
}

-- Only the tool that is not required is missing.
doctor_passes : (run_doctor surroundings "" "").1 ≡ 0
unfolding run_doctor examine check_ao check_gateway check_root check_execution_workspace
    judge_workspace check_baseline check_required_tools check_catalog_models resolve_ao_endpoint
    collect resolve_run_file probe_ao_identity the_daemon trim_slashes is_blank is_space
    resolve_gateway_endpoint validate_loopback_url check_url first_failure same_codes lower trim
    trim_space parse_and_validate_run_spec validate_spec check_workspace check_normal check_policies
    check_tools check_profiles check_worktree_dirty_policy filter_exact_lease_artifact keep_records
    join_records split_on
doctor_passes = refl

run_doctor-Healthy_example : Ends (Healthy surroundings "" "") (run_doctor surroundings "" "")
run_doctor-Healthy_example = run_doctor-Healthy surroundings "" ""
