-- ===== src/Control/RunSpec.antt =====
-- internal/workforce/control/run_spec.go, `ParseAndValidateRunSpec`: the JSON decoders, SHA-256 and
-- `filepath.Abs` are parameters. A validated document is returned with its texts trimmed, its paths
-- absolute and its policy filled in.
pub mod Normal
pub mod Valid
use agents_coworkers.Prelude.{
  ℕ, Bool, true, false, ◌&&◌, ◌||◌, not, String, ◌==◌, Option, none, some, List, [], ◌∷◌, any, all,
  is_nil, if◌then◌else◌, leb, nat_eq,
}
use agents_coworkers.Prelude.Int.{ℤ, pos, int_le}
use agents_coworkers.Prelude.Text.{codes, is_blank, trim_space}
use agents_coworkers.Recovery.Errors.{Error, other, Result, ok, err}
use agents_coworkers.Control.Types.{
  RunSpec, TargetSpec, WorkspacePolicy, RequiredTool, ConcurrencySpec, ProfileSpec,
}
use agents_coworkers.Control.Checks.{Check, first_failure}

pub record SpecReader : Type 0 where
  pub abs : String → Result String
  pub digest : String → String
  -- the keys of the outermost object, if `json.Unmarshal` reads one
  pub raw_keys : String → Option (List String)
  -- `Decode` with `DisallowUnknownFields`, and whether the input ends there
  pub decode : String → Option (RunSpec × Bool)

abbrev pub is_forbidden : String → Bool
is_forbidden key = key == "aoUrl" || key == "gatewayUrl" || key == "endpoints"

abbrev pub has_forbidden : Option (List String) → Bool
has_forbidden none = false
has_forbidden (some keys) = any is_forbidden keys

-- `toolNameRegex`, ^[a-zA-Z0-9_\-\.]+$
abbrev pub is_tool_code : ℕ → Bool
is_tool_code c =
    (leb 97 c && leb c 122)
    || (leb 65 c && leb c 90)
    || (leb 48 c && leb c 57)
    || nat_eq c 95
    || nat_eq c 45
    || nat_eq c 46

abbrev pub is_tool_name : String → Bool
is_tool_name name = not (name == "") && all is_tool_code (codes name)

abbrev pub is_git : RequiredTool → Bool
is_git tool = trim_space tool.name == "git" && tool.required

-- The loop over the tools: whether git was among them.
unfoldable pub check_tools : Bool → List RequiredTool → Result Bool
check_tools has_git [] = ok has_git
check_tools has_git (tool ∷ tools) =
    let rest = check_tools (has_git || is_git tool) tools in
    if trim_space tool.name == ""
    then err (other "requiredTools item has empty name")
    else if not (is_tool_name (trim_space tool.name))
    then err (other "invalid tool name")
    else rest

-- The loop over the profiles.
unfoldable pub check_profiles : List (String × ProfileSpec) → Option Error
check_profiles [] = none
check_profiles (p ∷ ps) =
    let rest = check_profiles ps in
    if trim_space (p.1).model == ""
    then some (other "profile has empty model")
    else if trim_space (p.1).reasoning_effort == ""
    then some (other "profile has empty reasoningEffort")
    else rest

abbrev pub is_out_of_bounds : Option ConcurrencySpec → Bool
is_out_of_bounds none = false
is_out_of_bounds (some c) =
    not (int_le (pos 1) c.max_concurrency) || not (int_le c.max_concurrency (pos 3))

abbrev pub policy_of : String → String
policy_of text = if trim_space text == "" then "require_clean" else trim_space text

abbrev pub normal : RunSpec → String → String → RunSpec
normal s root workspace = record s {
  run_id = trim_space s.run_id;
  target = record {
    target_root = root;
    execution_workspace = workspace;
    baseline_sha = trim_space s.target.baseline_sha;
    expected_branch = trim_space s.target.expected_branch;
  };
  workspace_policy = record {
    product_root_must_be_clean = s.workspace_policy.product_root_must_be_clean;
    execution_workspace_dirty_policy =
        policy_of s.workspace_policy.execution_workspace_dirty_policy;
  };
}

-- The checks up to the tools, on the normal form.
abbrev pub target_checks : RunSpec → List Check
target_checks n =
    (n.target.baseline_sha == "", "target.baselineSha is required")
    ∷ (n.target.expected_branch == "", "target.expectedBranch is required")
    ∷ (
      not n.workspace_policy.product_root_must_be_clean,
      "workspacePolicy.productRootMustBeClean must be true",
    )
    ∷ (
      not (n.workspace_policy.execution_workspace_dirty_policy == "require_clean")
          && not (n.workspace_policy.execution_workspace_dirty_policy == "allow_dirty_recorded"),
      "invalid executionWorkspaceDirtyPolicy",
    )
    ∷ []

abbrev pub policy_checks : RunSpec → List Check
policy_checks n =
    (
      not (n.endpoint_policy.ao_discovery == "flag_env_runfile_candidates_fail_closed"),
      "invalid endpointPolicy.aoDiscovery",
    )
    ∷ (
      not (n.endpoint_policy.gateway_discovery == "flag_env_historical_default_fail_closed"),
      "invalid endpointPolicy.gatewayDiscovery",
    )
    ∷ (is_out_of_bounds n.concurrency, "concurrency.maxConcurrency out of bounds [1, 3]")
    ∷ (is_nil n.profiles, "profiles must contain at least one entry")
    ∷ []

unfoldable pub check_policies : RunSpec → Result RunSpec
check_policies n = elim (first_failure (policy_checks n)) [
  | some x ↦ err x
  | none ↦ elim (check_profiles n.profiles) [ some x ↦ err x | none ↦ ok n ]
]

unfoldable pub check_normal : RunSpec → Result RunSpec
check_normal n = elim (first_failure (target_checks n)) [
  | some x ↦ err x
  | none ↦ elim (check_tools false n.required_tools) [
    | err x ↦ err x
    | ok has_git ↦
        if not has_git
        then err (other "requiredTools must explicitly include git as a required tool")
        else check_policies n
  ]
]

unfoldable pub check_workspace : SpecReader → RunSpec → String → Result RunSpec
check_workspace h s root =
    if trim_space s.target.execution_workspace == ""
    then err (other "target.executionWorkspace is required")
    else elim (h.abs s.target.execution_workspace) [
      | err x ↦ err x
      | ok workspace ↦ check_normal (normal s root workspace)
    ]

abbrev pub head_checks : RunSpec → List Check
head_checks s =
    (not (s.schema_version == "run-spec/v1-draft"), "invalid schemaVersion")
    ∷ (trim_space s.run_id == "", "runId is required")
    ∷ (trim_space s.target.target_root == "", "target.targetRoot is required")
    ∷ []

unfoldable pub validate_spec : SpecReader → RunSpec → Result RunSpec
validate_spec h s = elim (first_failure (head_checks s)) [
  | some x ↦ err x
  | none ↦ elim (h.abs s.target.target_root) [ err x ↦ err x | ok root ↦ check_workspace h s root ]
]

abbrev pub accept_spec : SpecReader → String → Option (RunSpec × Bool) → Result (RunSpec × String)
accept_spec h raw none = err (other "strict json decode run spec")
accept_spec h raw (some (s, at_end)) =
    if not at_end
    then err (other "run spec contains trailing tokens or multiple JSON objects")
    else elim (validate_spec h s) [ err x ↦ err x | ok n ↦ ok (n, h.digest raw) ]

-- `ParseAndValidateRunSpec`
unfoldable pub parse_and_validate_run_spec : SpecReader → String → Result (RunSpec × String)
parse_and_validate_run_spec h raw =
    if raw == ""
    then err (other "run spec bytes are empty")
    else if has_forbidden (h.raw_keys raw)
    then err (other "run spec must not contain an endpoint")
    else accept_spec h raw (h.decode raw)
