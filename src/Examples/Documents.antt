-- ===== src/Examples/Documents.antt =====
-- A document of a run, read, compared and written by internal/workforce/control.
use Prim.Native.String.{◌++◌ as ◌<>◌}
use agents_coworkers.Prelude.{
  ◌≡◌, ◌↔◌, refl, true, false, not, String, ◌==◌, none, some, [], ◌∷◌, if◌then◌else◌,
}
use agents_coworkers.Prelude.Int.{pos}
use agents_coworkers.Prelude.Text.{is_blank, is_space, same_codes, lower, trim}
use agents_coworkers.Recovery.Errors.{ok}
use agents_coworkers.Recovery.Lease.{lease_free, Dir}
use agents_coworkers.Control.Types.{RunManifest}
use agents_coworkers.Control.Checks.{first_failure}
use agents_coworkers.Control.Paths.{
  Host, is_64_hex, is_40_hex, is_clean_abs_path, are_paths_same_or_equivalent,
}
use agents_coworkers.Control.Loopback.{Url, check_url, validate_loopback_url}
use agents_coworkers.Control.Manifest.{Reader, check_manifest, read_manifest}
use agents_coworkers.Control.Manifest.WellFormed.{WellFormed}
use agents_coworkers.Control.Manifest.Accepted.{read_manifest-WellFormed}
use agents_coworkers.Control.Manifest.Complete.{WellFormed-read_manifest}
use agents_coworkers.Control.Manifest.Matching.{is_exact_binding_match}
use agents_coworkers.Control.Manifest.Bindings.{SameBinding, match-SameBinding}
use agents_coworkers.Control.Manifest.Writing.{
  Disk, Writes, write_manifest_atomic, write_manifest_atomic-Writes,
}

abbrev host : Host
host = record {
  is_abs = λ p. not (p == "");
  clean = λ p. p;
  abs = λ p. ok p;
  same_file = λ p q. false;
  is_windows = false;
  equal_fold = λ p q. false;
}

abbrev pub hex_64 : String
hex_64 = "0123456789abcdef0123456789abcdef0123456789abcdef0123456789abcdef"

abbrev hex_40 : String
hex_40 = "0123456789abcdef0123456789abcdef01234567"

abbrev manifest : RunManifest
manifest = record {
  schema_version = "run-manifest/v1-draft";
  run_id = "r1";
  run_spec_sha256 = hex_64;
  generated_at = "2026-01-01T00:00:00Z";
  generated_by = "coworkers attach";
  target = record {
    target_root = "/repo";
    execution_workspace = "/w";
    baseline_sha = "f00d";
    current_head = "f00d";
    branch = "main";
    repository_identity = "/repo/.git";
  };
  endpoints = record {
    ao_url = "http://localhost:1";
    ao_identity = "ao";
    ao_discovery_source = "run_file";
    ao_pid = pos 7;
    ao_pid_status = "VERIFIED";
    gateway_probe = record {
      url = "http://localhost:2";
      catalog_path = "/v1/models";
      catalog_status = "VERIFIED";
      observed_models = "n" ∷ "m" ∷ [];
      provider_call_performed = false;
      credential_eligibility = "NOT_OBSERVED";
    };
  };
  session_binding = record { session_id = "s1"; project_id = "p"; session_branch = "main" };
  worktree_binding = record {
    canonical_path = "/w";
    worktree_branch = "main";
    head = "f00d";
    is_clean = true;
    dirty_policy = "require_clean";
    porcelain_sha256 = "";
    verified_porcelain = true;
  };
  attached_session_profile = record {
    kind = "worker";
    harness = "codex";
    model = "m";
    reasoning_effort = "high";
    status = "VERIFIED";
  };
  lease = record {
    workspace_root = "/w";
    run_owner = "r1";
    task_id = "__run__";
    owner_id = "r1";
    observed_state = lease_free;
    observed_pid = pos 0;
  };
  source_provenance = record { cli_proxy_api_sha = hex_40; source_audit_only = true };
}

abbrev pub local : Url
local = record {
  scheme = "HTTP";
  has_user = false;
  raw_query = "";
  fragment = "";
  path = "/";
  hostname = "Localhost";
}

abbrev pub reader : Reader
reader = record {
  host = host;
  decode = λ t. if t == "document" then some (manifest, true) else none;
  is_rfc3339 = λ t. true;
  parse_url = λ cs. some local;
}

manifest_accepted : read_manifest reader "m.json" (ok "document") ≡ ok manifest
unfolding read_manifest check_manifest first_failure is_64_hex is_40_hex is_clean_abs_path
    are_paths_same_or_equivalent validate_loopback_url check_url is_blank is_space same_codes lower
    trim
manifest_accepted = refl

read_manifest-WellFormed_example : WellFormed reader manifest
read_manifest-WellFormed_example =
    read_manifest-WellFormed reader "m.json" (ok "document") manifest manifest_accepted

-- The same run later, with another date.
abbrev later : RunManifest
later = record manifest { generated_at = "2026-01-02T00:00:00Z" }

match-SameBinding_example :
    (is_exact_binding_match host (some manifest) (some later) ≡ true)
    ↔ SameBinding host manifest later
match-SameBinding_example = match-SameBinding host manifest later

abbrev pub disk : Disk
disk = record {
  reader = reader;
  absolute = λ p. ok ("/" <> p);
  temp_path = λ p. p <> ".tmp";
  encode = λ m. some "document";
  stat_error = none;
  read_error = none;
  mkdir_error = none;
  open_error = none;
  write_error = none;
  rename_error = none;
  remove_error = none;
  meanwhile = λ d. d;
}

abbrev pub empty : Dir
empty p = none

write_manifest_atomic-Writes_example :
    Writes disk manifest "/m.json" empty (write_manifest_atomic disk manifest "m.json" empty)
write_manifest_atomic-Writes_example =
    write_manifest_atomic-Writes disk manifest "m.json" "/m.json" empty refl refl

WellFormed-read_manifest_example : read_manifest reader "m.json" (ok "document") ≡ ok manifest
unfolding is_blank is_space
WellFormed-read_manifest_example =
    WellFormed-read_manifest reader "m.json" "document" manifest refl refl
      (read_manifest-WellFormed reader "m.json" (ok "document") manifest manifest_accepted)
