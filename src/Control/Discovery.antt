-- ===== src/Control/Discovery.antt =====
-- internal/workforce/control/discovery.go: `ResolveAOEndpoint` and `ResolveGatewayEndpoint`. The
-- environment, the file system, the processes, HTTP and JSON are parameters.
pub mod Daemon
pub mod Trust
pub mod Usable
pub mod Catalog
use Prim.Native.String.{◌++◌ as ◌<>◌}
use Prim.Native.Char.{code}
use agents_coworkers.Prelude.{
  ℕ, Bool, true, false, ◌&&◌, ◌||◌, not, String, ◌==◌, Option, none, some, List, [], ◌∷◌, any, all,
  is_nil, nat_eq, if◌then◌else◌,
}
use agents_coworkers.Prelude.Int.{ℤ, pos, is_pos, int_le}
use agents_coworkers.Prelude.Text.{trim_slashes, is_blank, trim_space}
use agents_coworkers.Recovery.Errors.{Error}
use agents_coworkers.Control.Types.{AoDiscoveryResult, GatewayResult}
use agents_coworkers.Control.Loopback.{Url, validate_loopback_url}
use agents_coworkers.Control.Manifest.{failed}

pub data DiscoveryErrorKind : Type 0 where
  validation unavailable : DiscoveryErrorKind

-- `int(dErr.Kind)`
abbrev pub kind_code : DiscoveryErrorKind → ℕ
kind_code validation = 2
kind_code unavailable = 3

-- `(*T, *DiscoveryError)`
pub data Discovery (A : Type 0) : Type 0 where
  found : A → Discovery A
  missing : DiscoveryErrorKind → Discovery A

-- `client.Do` of a GET: the request cannot be made, AO or the gateway is not reached, or it answers
-- with a status and a body, `none` if the body cannot be read.
pub data Answer : Type 0 where
  no_request no_connection : Answer
  answered : ℕ → Option String → Answer

pub data FileRead : Type 0 where
  no_file unreadable : FileRead
  content : String → FileRead

pub record RunningJson : Type 0 where
  pub port : ℤ
  pub pid : ℤ

pub record Machine : Type 0 where
  pub get : String → Answer
  pub env : String → String
  -- `os.UserHomeDir`, "" on an error
  pub home : String
  pub join : String → String → String
  -- `filepath.Abs` or else `filepath.Clean`, then `filepath.EvalSymlinks` where it succeeds
  pub canonical : String → String
  -- `strings.ToLower` on Windows
  pub normalised : String → String
  pub exists : String → Bool
  pub read_file : String → FileRead
  pub is_alive : ℤ → Bool
  pub decimal : ℤ → String
  pub parse_url : List ℕ → Option Url
  pub decode_running : String → Option RunningJson
  pub decode_identity : String → Option String
  pub decode_models : String → Option (List String)

abbrev pub default_gateway_url : String
default_gateway_url = "http://127.0.0.1:8317"

module _ (h : Machine) where
  abbrev pub check_identity : Option String → Discovery String
  check_identity none = missing validation
  check_identity (some id) = if is_blank id then missing validation else found id

  abbrev pub judge_identity : Answer → Discovery String
  judge_identity no_request = missing validation
  judge_identity no_connection = missing unavailable
  judge_identity (answered status none) = missing validation
  judge_identity (answered status (some body)) =
      if not (nat_eq status 200)
      then missing validation
      else check_identity (h.decode_identity body)

  -- `ProbeAOIdentity`
  unfoldable pub probe_ao_identity : String → Discovery String
  probe_ao_identity url = judge_identity (h.get (trim_slashes url <> "/api/v1/identity"))

  -- `CheckProcessAlive`
  abbrev pub check_process_alive : ℤ → Bool
  check_process_alive pid = is_pos pid && h.is_alive pid

  abbrev pub identified : String → ℤ → Discovery String → Discovery AoDiscoveryResult
  identified url pid (missing k) = missing k
  identified url pid (found id) = found (record {
    url = url;
    identity = id;
    discovery_source = "run_file";
    pid = pid;
    pid_status = "VERIFIED";
  })

  abbrev pub judge_running : Option RunningJson → Discovery AoDiscoveryResult
  judge_running none = missing validation
  judge_running (some r) =
      let url = "http://127.0.0.1:" <> h.decimal r.port in
      if not (is_pos r.port) || not (is_pos r.pid)
      then missing validation
      else if not (check_process_alive r.pid)
      then missing validation
      else identified url r.pid (probe_ao_identity url)

  abbrev pub judge_run_file : FileRead → Discovery AoDiscoveryResult
  judge_run_file no_file = missing unavailable
  judge_run_file unreadable = missing validation
  judge_run_file (content text) = judge_running (h.decode_running text)

  -- `resolveRunFile`
  unfoldable pub resolve_run_file : String → Discovery AoDiscoveryResult
  resolve_run_file path = judge_run_file (h.read_file path)

  abbrev pub unobserved : String → String → Discovery String → Discovery AoDiscoveryResult
  unobserved url source (missing k) = missing k
  unobserved url source (found id) = found (record {
    url = trim_slashes url;
    identity = id;
    discovery_source = source;
    pid = pos 0;
    pid_status = "NOT_OBSERVED";
  })

  -- An URL that the flag or the environment gives.
  unfoldable pub resolve_url : String → String → Discovery AoDiscoveryResult
  resolve_url url source =
      if failed (validate_loopback_url h.parse_url url)
      then missing validation
      else unobserved url source (probe_ao_identity url)

  -- The two candidates, or one if they are one file.
  abbrev pub candidate_paths : List String
  candidate_paths =
      let dev = h.canonical (h.join (h.join (h.join h.home ".ao") "dev") "running.json") in
      let plain = h.canonical (h.join (h.join h.home ".ao") "running.json") in
      if h.normalised dev == h.normalised plain then dev ∷ [] else dev ∷ plain ∷ []

  abbrev pub add_result :
      Discovery AoDiscoveryResult
      → Discovery (List AoDiscoveryResult)
      → Discovery (List AoDiscoveryResult)
  add_result (missing k) rest = missing validation
  add_result (found r) (missing k) = missing k
  add_result (found r) (found rs) = found (r ∷ rs)

  -- The loop over the candidates: one that exists must be valid.
  unfoldable pub collect : List String → Discovery (List AoDiscoveryResult)
  collect [] = found []
  collect (p ∷ ps) =
      let rest = collect ps in if h.exists p then add_result (resolve_run_file p) rest else rest

  abbrev pub same_daemon : AoDiscoveryResult → AoDiscoveryResult → Bool
  same_daemon r q =
      r.identity == q.identity && int_le r.pid q.pid && int_le q.pid r.pid && r.url == q.url

  -- The one daemon of the results; of several with one key the last is kept.
  unfoldable pub the_daemon : List AoDiscoveryResult → Discovery AoDiscoveryResult
  the_daemon [] = missing unavailable
  the_daemon (r ∷ []) = found r
  the_daemon (r ∷ q ∷ rs) =
      let rest = the_daemon (q ∷ rs) in if same_daemon r q then rest else missing validation

  abbrev pub judge_candidates : Discovery (List AoDiscoveryResult) → Discovery AoDiscoveryResult
  judge_candidates (missing k) = missing k
  judge_candidates (found rs) =
      if not (any h.exists candidate_paths) then missing unavailable else the_daemon rs

  -- `ResolveAOEndpoint`
  unfoldable pub resolve_ao_endpoint : String → Discovery AoDiscoveryResult
  resolve_ao_endpoint explicit_url =
      if not (explicit_url == "")
      then resolve_url explicit_url "explicit_url"
      else if not (h.env "AO_BASE_URL" == "")
      then resolve_url (h.env "AO_BASE_URL") "environment_url"
      else if not (h.env "AO_RUN_FILE" == "")
      then resolve_run_file (h.env "AO_RUN_FILE")
      else if h.home == ""
      then missing unavailable
      else judge_candidates (collect candidate_paths)

  abbrev pub named_models : List String → List String
  named_models [] = []
  named_models (m ∷ ms) =
      let rest = named_models ms in if trim_space m == "" then rest else trim_space m ∷ rest

  abbrev pub check_models : String → List String → Discovery GatewayResult
  check_models url [] = missing validation
  check_models url (m ∷ ms) = found (record {
    url = url;
    catalog_status = "VERIFIED";
    observed_models = m ∷ ms;
    provider_call_performed = false;
    credential_eligibility = "NOT_OBSERVED";
  })

  abbrev pub check_catalog : String → Option (List String) → Discovery GatewayResult
  check_catalog url none = missing validation
  check_catalog url (some ms) = check_models url (named_models ms)

  abbrev pub judge_catalog : String → Answer → Discovery GatewayResult
  judge_catalog url no_request = missing validation
  judge_catalog url no_connection = missing unavailable
  judge_catalog url (answered status body) =
      if not (nat_eq status 200) then missing validation else elim body [
        | none ↦ missing validation
        | some text ↦ check_catalog url (h.decode_models text)
      ]

  -- The URL of the gateway: the flag's, else the environment's, else the default.
  abbrev pub gateway_url : String → String
  gateway_url explicit_url =
      if not (trim_space explicit_url == "")
      then trim_space explicit_url
      else if not (trim_space (h.env "COWORKERS_GATEWAY_URL") == "")
      then trim_space (h.env "COWORKERS_GATEWAY_URL")
      else default_gateway_url

  -- `ResolveGatewayEndpoint`
  unfoldable pub resolve_gateway_endpoint : String → Discovery GatewayResult
  resolve_gateway_endpoint explicit_url =
      let url = gateway_url explicit_url in
      if failed (validate_loopback_url h.parse_url url)
      then missing validation
      else judge_catalog (trim_slashes url) (h.get (trim_slashes url <> "/v1/models"))
