-- ===== src/Control/Types.antt =====
-- internal/workforce/control/types.go: the documents of a run. A Go map is a list of its entries.
use agents_coworkers.Prelude.{Bool, String, Option, List}
use agents_coworkers.Prelude.Int.{ℤ}
use agents_coworkers.Recovery.Lease.{LeaseState}

pub record TargetSpec : Type 0 where
  pub target_root : String
  pub execution_workspace : String
  pub baseline_sha : String
  pub expected_branch : String

pub record WorkspacePolicy : Type 0 where
  pub product_root_must_be_clean : Bool
  pub execution_workspace_dirty_policy : String

pub record RequiredTool : Type 0 where
  pub name : String
  pub required : Bool

pub record EndpointPolicy : Type 0 where
  pub ao_discovery : String
  pub gateway_discovery : String

pub record ConcurrencySpec : Type 0 where
  pub max_concurrency : ℤ

pub record ProfileSpec : Type 0 where
  pub model : String
  pub reasoning_effort : String

pub record RunSpec : Type 0 where
  pub schema_version : String
  pub run_id : String
  pub description : String
  pub target : TargetSpec
  pub workspace_policy : WorkspacePolicy
  pub required_tools : List RequiredTool
  pub endpoint_policy : EndpointPolicy
  pub concurrency : Option ConcurrencySpec
  pub profiles : List (String × ProfileSpec)
  pub documentation : List (String × List String)
  pub policies : List (String × String)

pub record TargetManifest : Type 0 where
  pub target_root : String
  pub execution_workspace : String
  pub baseline_sha : String
  pub current_head : String
  pub branch : String
  pub repository_identity : String

pub record GatewayProbeManifest : Type 0 where
  pub url : String
  pub catalog_path : String
  pub catalog_status : String
  pub observed_models : List String
  pub provider_call_performed : Bool
  pub credential_eligibility : String

pub record EndpointsManifest : Type 0 where
  pub ao_url : String
  pub ao_identity : String
  pub ao_discovery_source : String
  pub ao_pid : ℤ
  pub ao_pid_status : String
  pub gateway_probe : GatewayProbeManifest

pub record SessionBindingManifest : Type 0 where
  pub session_id : String
  pub project_id : String
  pub session_branch : String

pub record WorktreeBindingManifest : Type 0 where
  pub canonical_path : String
  pub worktree_branch : String
  pub head : String
  pub is_clean : Bool
  pub dirty_policy : String
  pub porcelain_sha256 : String
  pub verified_porcelain : Bool

pub record AttachedSessionProfile : Type 0 where
  pub kind : String
  pub harness : String
  pub model : String
  pub reasoning_effort : String
  pub status : String

pub record LeaseManifest : Type 0 where
  pub workspace_root : String
  pub run_owner : String
  pub task_id : String
  pub owner_id : String
  pub observed_state : LeaseState
  pub observed_pid : ℤ

pub record SourceProvenance : Type 0 where
  pub cli_proxy_api_sha : String
  pub source_audit_only : Bool

pub record RunManifest : Type 0 where
  pub schema_version : String
  pub run_id : String
  pub run_spec_sha256 : String
  pub generated_at : String
  pub generated_by : String
  pub target : TargetManifest
  pub endpoints : EndpointsManifest
  pub session_binding : SessionBindingManifest
  pub worktree_binding : WorktreeBindingManifest
  pub attached_session_profile : AttachedSessionProfile
  pub lease : LeaseManifest
  pub source_provenance : SourceProvenance

pub record AoDiscoveryResult : Type 0 where
  pub url : String
  pub identity : String
  pub discovery_source : String
  pub pid : ℤ
  pub pid_status : String

pub record GatewayResult : Type 0 where
  pub url : String
  pub catalog_status : String
  pub observed_models : List String
  pub provider_call_performed : Bool
  pub credential_eligibility : String

pub record WorkspaceCheck : Type 0 where
  pub policy : String
  pub is_clean : Bool
  pub porcelain_sha256 : String

pub record ToolCheckResult : Type 0 where
  pub name : String
  pub required : Bool
  pub found : Bool
  pub path : String

pub record DoctorReport : Type 0 where
  pub status : String
  pub run_id : String
  pub run_spec_sha256 : String
  pub ao_endpoint : AoDiscoveryResult
  pub gateway_endpoint : GatewayResult
  pub target_root_clean : Bool
  pub workspace_check : WorkspaceCheck
  pub baseline_found : Bool
  pub branch_match : Bool
  pub tools_check : List ToolCheckResult
  pub model_presence : List (String × Bool)
  pub errors : List String
