-- ===== src/Examples/Specs.antt =====
-- A run spec that internal/workforce/control accepts.
use agents_coworkers.Prelude.{◌≡◌, refl, true, false, some, [], ◌∷◌}
use agents_coworkers.Prelude.Int.{pos}
use agents_coworkers.Prelude.Text.{trim_space}
use agents_coworkers.Recovery.Errors.{ok}
use agents_coworkers.Control.Types.{RunSpec}
use agents_coworkers.Control.Checks.{first_failure}
use agents_coworkers.Control.RunSpec.{
  SpecReader, normal, check_tools, check_profiles, check_policies, check_normal, check_workspace,
  validate_spec, parse_and_validate_run_spec,
}
use agents_coworkers.Control.RunSpec.Valid.{ValidSpec, parse_and_validate_run_spec-ValidSpec}

abbrev pub spec : RunSpec
spec = record {
  schema_version = "run-spec/v1-draft";
  run_id = " r1 ";
  description = "";
  target = record {
    target_root = "repo";
    execution_workspace = "w";
    baseline_sha = "f00d ";
    expected_branch = "main";
  };
  workspace_policy = record {
    product_root_must_be_clean = true;
    execution_workspace_dirty_policy = "";
  };
  required_tools =
      record { name = "go"; required = false } ∷ record { name = "git"; required = true } ∷ [];
  endpoint_policy = record {
    ao_discovery = "flag_env_runfile_candidates_fail_closed";
    gateway_discovery = "flag_env_historical_default_fail_closed";
  };
  concurrency = some (record { max_concurrency = pos 3 });
  profiles = ("lead", record { model = "m"; reasoning_effort = "high" }) ∷ [];
  documentation = [];
  policies = [];
}

abbrev pub reader : SpecReader
reader = record {
  abs = λ p. ok p;
  digest = λ t. t;
  raw_keys = λ t. some ("runId" ∷ []);
  decode = λ t. some (spec, true);
}

spec_accepted : parse_and_validate_run_spec reader "raw" ≡ ok (normal spec "repo" "w", "raw")
unfolding parse_and_validate_run_spec validate_spec check_workspace check_normal check_policies
    check_tools check_profiles first_failure trim_space
spec_accepted = refl

parse_and_validate_run_spec-ValidSpec_example :
    ValidSpec reader "raw" (normal spec "repo" "w", "raw")
parse_and_validate_run_spec-ValidSpec_example =
    parse_and_validate_run_spec-ValidSpec reader "raw" (normal spec "repo" "w", "raw") spec_accepted
