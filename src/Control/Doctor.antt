-- ===== src/Control/Doctor.antt =====
-- internal/workforce/control/doctor.go, `RunDoctor`: the report and the exit code. Git and the search
-- of the PATH are parameters, and so is what the models of the other files take. What is printed is
-- not modelled, and the texts of the errors are shortened.
pub mod Stages
pub mod Health
use agents_coworkers.Prelude.{
  ℕ, Bool, true, false, ◌&&◌, ◌||◌, not, String, ◌==◌, Option, none, some, List, [], ◌∷◌, ◌++◌, any,
  all, is_nil, if◌then◌else◌,
}
use agents_coworkers.Prelude.Int.{pos}
use agents_coworkers.Recovery.Errors.{Result, ok, err}
use agents_coworkers.Control.Types.{
  RunSpec, RequiredTool, ProfileSpec, AoDiscoveryResult, GatewayResult, ToolCheckResult,
  DoctorReport,
}
use agents_coworkers.Control.RunSpec.{SpecReader, parse_and_validate_run_spec}
use agents_coworkers.Control.Worktree.{Git, check_worktree_dirty_policy}
use agents_coworkers.Control.Discovery.{
  Discovery, found, missing, kind_code, Machine, resolve_ao_endpoint, resolve_gateway_endpoint,
}

pub record Surroundings : Type 0 where
  pub spec_reader : SpecReader
  pub machine : Machine
  pub git : Git
  -- `os.ReadFile` of the spec
  pub read_spec : Result String
  -- the output of `git status` on the product root
  pub root_status : String → Result (List ℕ)
  pub commit_exists : String → String → Bool
  -- `exec.LookPath`
  pub look_path : String → Option String

-- `&DoctorReport{Status: "FAIL", …}`
abbrev pub no_report : DoctorReport
no_report = record {
  status = "FAIL";
  run_id = "";
  run_spec_sha256 = "";
  ao_endpoint = record {
    url = "";
    identity = "";
    discovery_source = "";
    pid = pos 0;
    pid_status = "";
  };
  gateway_endpoint = record {
    url = "";
    catalog_status = "";
    observed_models = [];
    provider_call_performed = false;
    credential_eligibility = "";
  };
  target_root_clean = false;
  workspace_check = record { policy = ""; is_clean = false; porcelain_sha256 = "" };
  baseline_found = false;
  branch_match = false;
  tools_check = [];
  model_presence = [];
  errors = [];
}

abbrev pub fail : DoctorReport → String → ℕ → DoctorReport × ℕ
fail r text code = (record r { errors = r.errors ++ (text ∷ []) }, code)

module _ (d : Surroundings) where
  abbrev pub is_found : Option String → Bool
  is_found none = false
  is_found (some p) = true

  abbrev pub path_found : Option String → String
  path_found none = ""
  path_found (some p) = p

  abbrev pub tool_result : RequiredTool → ToolCheckResult
  tool_result t = record {
    name = t.name;
    required = t.required;
    found = is_found (d.look_path t.name);
    path = path_found (d.look_path t.name);
  }

  abbrev pub tool_results : List RequiredTool → List ToolCheckResult
  tool_results [] = []
  tool_results (t ∷ ts) = tool_result t ∷ tool_results ts

  abbrev pub is_lacking : RequiredTool → Bool
  is_lacking t = not (is_found (d.look_path t.name)) && t.required

  abbrev pub tool_errors : List RequiredTool → List String
  tool_errors [] = []
  tool_errors (t ∷ ts) =
      let rest = tool_errors ts in
      if is_lacking t then "required tool not found in PATH" ∷ rest else rest

  abbrev pub is_served : List String → String → Bool
  is_served models model = any (λ m. m == model) models

  abbrev pub presence : List String → List (String × ProfileSpec) → List (String × Bool)
  presence models [] = []
  presence models (p ∷ ps) = ((p.1).model, is_served models (p.1).model) ∷ presence models ps

  abbrev pub all_served : List String → List (String × ProfileSpec) → Bool
  all_served models [] = true
  all_served models (p ∷ ps) = is_served models (p.1).model && all_served models ps

  abbrev pub with_models : DoctorReport → RunSpec → DoctorReport
  with_models r s = record r {
    model_presence = presence r.gateway_endpoint.observed_models s.profiles;
  }

  -- 8. the catalog
  unfoldable pub check_catalog_models : RunSpec → DoctorReport → DoctorReport × ℕ
  check_catalog_models s r =
      if not (all_served r.gateway_endpoint.observed_models s.profiles)
      then fail (with_models r s) "missing models in catalog" 2
      else (record (with_models r s) { status = "PASS" }, 0)

  abbrev pub with_tools : DoctorReport → RunSpec → DoctorReport
  with_tools r s = record r {
    tools_check = tool_results s.required_tools;
    errors = r.errors ++ tool_errors s.required_tools;
  }

  -- 7. the tools
  unfoldable pub check_required_tools : RunSpec → DoctorReport → DoctorReport × ℕ
  check_required_tools s r =
      if any is_lacking s.required_tools
      then (with_tools r s, 2)
      else check_catalog_models s (with_tools r s)

  -- 6. the baseline
  unfoldable pub check_baseline : RunSpec → DoctorReport → DoctorReport × ℕ
  check_baseline s r =
      if not (d.commit_exists s.target.target_root s.target.baseline_sha)
      then fail r "baseline commit check" 2
      else check_required_tools s (record r { baseline_found = true })

  abbrev pub with_workspace : DoctorReport → RunSpec → Bool × String → DoctorReport
  with_workspace r s w = record r {
    workspace_check = record {
      policy = s.workspace_policy.execution_workspace_dirty_policy;
      is_clean = w.0;
      porcelain_sha256 = w.1;
    };
  }

  unfoldable pub judge_workspace : RunSpec → DoctorReport → Bool × String → DoctorReport × ℕ
  judge_workspace s r w =
      if s.workspace_policy.execution_workspace_dirty_policy == "require_clean" && not (w.0)
      then fail (with_workspace r s w) "execution workspace dirty with require_clean policy" 2
      else check_baseline s (with_workspace r s w)

  -- 5. the execution workspace
  unfoldable pub check_execution_workspace : RunSpec → DoctorReport → DoctorReport × ℕ
  check_execution_workspace s r =
      elim (check_worktree_dirty_policy d.git s.target.execution_workspace s.run_id) [
        | err x ↦ fail r "check execution workspace" 2
        | ok w ↦ judge_workspace s r w
      ]

  -- 4. the product root
  unfoldable pub check_root : RunSpec → DoctorReport → DoctorReport × ℕ
  check_root s r = elim (d.root_status s.target.target_root) [
    | err x ↦ fail r "check product root" 2
    | ok out ↦
        if not (is_nil out)
        then fail r "product root is dirty" 2
        else check_execution_workspace s (record r { target_root_clean = true })
  ]

  -- 3. the gateway
  unfoldable pub check_gateway : String → RunSpec → DoctorReport → DoctorReport × ℕ
  check_gateway gateway_url s r = elim (resolve_gateway_endpoint d.machine gateway_url) [
    | missing k ↦ fail r "resolve gateway endpoint" (kind_code k)
    | found g ↦ check_root s (record r { gateway_endpoint = g })
  ]

  -- 2. the daemon
  unfoldable pub check_ao : String → String → RunSpec → DoctorReport → DoctorReport × ℕ
  check_ao ao_url gateway_url s r = elim (resolve_ao_endpoint d.machine ao_url) [
    | missing k ↦ fail r "resolve AO endpoint" (kind_code k)
    | found a ↦ check_gateway gateway_url s (record r { ao_endpoint = a })
  ]

  unfoldable pub examine : String → String → String → DoctorReport × ℕ
  examine ao_url gateway_url raw = elim (parse_and_validate_run_spec d.spec_reader raw) [
    | err x ↦ fail no_report "validate spec" 2
    | ok p ↦
        check_ao ao_url gateway_url (p.0)
          (record no_report { run_id = (p.0).run_id; run_spec_sha256 = p.1 })
  ]

  -- `RunDoctor`
  unfoldable pub run_doctor : String → String → DoctorReport × ℕ
  run_doctor ao_url gateway_url = elim d.read_spec [
    | err x ↦ fail no_report "read spec file" 2
    | ok raw ↦ examine ao_url gateway_url raw
  ]
