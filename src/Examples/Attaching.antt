-- ===== src/Examples/Attaching.antt =====
-- A session attached to its worktree by internal/workforce/control.
use Prim.Native.String.{◌++◌ as ◌<>◌}
use agents_coworkers.Prelude.{
  ◌≡◌, refl, ap, sym, subst, true, false, String, eq_refl, none, some, [], ◌∷◌, if◌then◌else◌,
  if-intro, arith, List,
}
use agents_coworkers.Prelude.Int.{pos}
use agents_coworkers.Prelude.Text.{
  trim_slashes, codes, is_blank, is_space, same_codes, lower, trim, trim_space,
}
use agents_coworkers.Recovery.Errors.{ok, err, other}
use agents_coworkers.Recovery.Lease.{Dir, lease_free, inspect_lease, inspect_file, lease_path}
use agents_coworkers.Control.Types.{RunManifest}
use agents_coworkers.Control.Checks.{first_failure}
use agents_coworkers.Control.Paths.{
  Host, is_64_hex, is_40_hex, is_clean_abs_path, are_paths_same_or_equivalent,
}
use agents_coworkers.Control.Loopback.{validate_loopback_url, check_url}
use agents_coworkers.Control.RunSpec.{
  check_tools, check_profiles, check_policies, check_normal, check_workspace, validate_spec,
  parse_and_validate_run_spec,
}
use agents_coworkers.Control.Worktree.{check_worktree_dirty_policy}
use agents_coworkers.Control.Discovery.{
  answered, probe_ao_identity, resolve_run_file, collect, the_daemon, resolve_ao_endpoint,
  resolve_gateway_endpoint,
}
use agents_coworkers.Control.Manifest.{check_manifest, read_manifest}
use agents_coworkers.Control.Manifest.WellFormed.{WellFormed}
use agents_coworkers.Control.Manifest.Writing.{
  content_at, write_manifest_atomic, write_at, write_new, write_temp, rename,
}
use agents_coworkers.Control.GitWorktrees.{parse_worktrees, parse_items, split_zero}
use agents_coworkers.Control.GitWorktrees.Printed.{
  Listed, bare_at, detached_at, on_branch, print_worktrees, all_seen,
  parse_worktrees-print_worktrees,
}
use agents_coworkers.Control.Attempt.{Attempt, done, exits}
use agents_coworkers.Control.Attach.{
  AttachOptions, Site, Findings, canonical_physical_path, get_git_repository_identity,
  list_git_worktrees,
}
use agents_coworkers.Control.Attach.Reading.{
  read_target, find_endpoints, find_profile, read_session, read_effort, worktrees_on, bind_worktree,
  check_policy, check_lease, gather,
}
use agents_coworkers.Control.Attach.Publishing.{manifest_of, run_attach}
use agents_coworkers.Control.Attach.Soundness.{Sound}
use agents_coworkers.Control.Attach.Results.{Exits, run_attach-Exits}
use agents_coworkers.Control.Attach.Persisted.{Writable, run_attach-read_manifest}
use agents_coworkers.Examples.Documents.{reader, disk, hex_64, empty}
use agents_coworkers.Examples.Doctors.{surroundings, machine}
use agents_coworkers.Examples.Specs.{reader as spec_reader}
use agents_coworkers.Examples.Worktrees.{git}
use agents_coworkers.Examples.Parser.{has_text, parse_url, text-valid, slashes_valid}

abbrev worktrees : List Listed
worktrees = bare_at "/repo.git" ∷ detached_at "/tmp/d" "beef" ∷ on_branch "w" "f00d" "main" ∷ []

parse_worktrees-print_worktrees_example :
    parse_worktrees (print_worktrees worktrees) ≡ all_seen worktrees
parse_worktrees-print_worktrees_example = parse_worktrees-print_worktrees worktrees refl

-- The first path of a directory, and any text that is not blank.
abbrev paths : Host
paths = record {
  is_abs = λ p. true;
  clean = λ p. p;
  abs = λ p. ok p;
  same_file = λ p q. false;
  is_windows = false;
  equal_fold = λ p q. false;
}

abbrev pub options : AttachOptions
options = record {
  spec_path = "spec.json";
  session_id = "s1";
  workspace = "w";
  manifest_path = "m.json";
  ao_url = "";
  gateway_url = "";
  json = false;
}

abbrev made : RunManifest
made = record {
  schema_version = "run-manifest/v1-draft";
  run_id = "r1";
  run_spec_sha256 = hex_64;
  generated_at = "2026-01-01T00:00:00Z";
  generated_by = "coworkers attach";
  target = record {
    target_root = "repo";
    execution_workspace = "w";
    baseline_sha = "f00d";
    current_head = "f00d";
    branch = "main";
    repository_identity = "repo/.git";
  };
  endpoints = record {
    ao_url = "http://127.0.0.1:7";
    ao_identity = "ao-1";
    ao_discovery_source = "run_file";
    ao_pid = pos 42;
    ao_pid_status = "VERIFIED";
    gateway_probe = record {
      url = "http://127.0.0.1:8317";
      catalog_path = "/v1/models";
      catalog_status = "VERIFIED";
      observed_models = "m" ∷ [];
      provider_call_performed = false;
      credential_eligibility = "NOT_OBSERVED";
    };
  };
  session_binding = record { session_id = "s1"; project_id = "p"; session_branch = "main" };
  worktree_binding = record {
    canonical_path = "w";
    worktree_branch = "main";
    head = "f00d";
    is_clean = true;
    dirty_policy = "require_clean";
    porcelain_sha256 = "";
    verified_porcelain = true;
  };
  attached_session_profile = record {
    kind = "lead";
    harness = "codex";
    model = "m";
    reasoning_effort = "high";
    status = "VERIFIED";
  };
  lease = record {
    workspace_root = "w";
    run_owner = "r1";
    task_id = "__run__";
    owner_id = "r1";
    observed_state = lease_free;
    observed_pid = pos 0;
  };
  source_provenance = record {
    cli_proxy_api_sha = "2430354330af80b645f9ffb1a51e1e7c72c4cc8e";
    source_audit_only = true;
  };
}

abbrev pub site : Site
site = record {
  surroundings = record surroundings {
    spec_reader = record spec_reader { digest = λ raw. hex_64 };
    machine = record machine { parse_url = parse_url };
    git = record git { status = λ w. ok []; digest = λ out. hex_64 };
  };
  disk = record disk {
    reader = record reader { host = paths; parse_url = parse_url; decode = λ t. some (made, true) };
  };
  lease_host = record {
    pid = pos 1;
    absolute = λ p. ok p;
    join = λ p q. p <> ("/" <> q);
    digest = λ t. "abc";
    encode = λ r. "record";
    decode = λ t. none;
    context_error = none;
    mkdir_error = none;
    open_error = none;
    write_error = none;
    written = λ content. "";
    read_error = none;
    remove_error = none;
  };
  abs = λ p. if is_blank p then ok "/" else ok p;
  eval_symlinks = λ p. err (other "no link");
  join = λ p q. p <> ("/" <> q);
  path_escape = λ p. p;
  query = λ u. answered 200 (some "body");
  decode_session = λ b. some (record {
    id = "s1";
    project_id = "p";
    kind = "lead";
    harness = "codex";
    model = "m";
    branch = "main";
    is_terminated = false;
  });
  decode_settings = λ b. some (record { model = "m"; reasoning_effort = " high" });
  worktree_list = λ p. ok (print_worktrees worktrees);
  common_dir = λ p. ok "repo/.git\n";
  now = "2026-01-01T00:00:00Z";
}

abbrev files_after : Dir
files_after = (run_attach site options empty).2

attached : run_attach site options empty ≡ (some made, 0, files_after)
unfolding run_attach gather read_target find_endpoints read_session find_profile read_effort
    bind_worktree worktrees_on check_policy check_lease canonical_physical_path
    get_git_repository_identity list_git_worktrees parse_worktrees parse_items split_zero
    parse_and_validate_run_spec validate_spec check_workspace check_normal check_policies
    check_tools check_profiles first_failure trim_space is_blank is_space
    are_paths_same_or_equivalent resolve_ao_endpoint collect resolve_run_file probe_ao_identity
    the_daemon trim_slashes resolve_gateway_endpoint validate_loopback_url check_url same_codes
    lower trim check_worktree_dirty_policy inspect_lease inspect_file lease_path manifest_of
    write_manifest_atomic write_at write_new write_temp rename read_manifest check_manifest
    is_64_hex is_40_hex is_clean_abs_path
attached = refl

named_path : (p : String) → is_blank p ≡ false → is_clean_abs_path paths p ≡ true
unfolding is_clean_abs_path
named_path p e = let same_path = eq_refl p in ground (arith, e, same_path)

root_path : is_clean_abs_path paths "/" ≡ true
unfolding is_clean_abs_path is_blank is_space
root_path = refl

absolute_path : (p q : String) → site.abs p ≡ ok q → is_clean_abs_path paths q ≡ true
absolute_path p q =
    if-intro (λ r. r ≡ ok q → is_clean_abs_path paths q ≡ true) (is_blank p)
      (λ _ e. let top : "/" ≡ q = cc in subst (λ t. is_clean_abs_path paths t ≡ true) top root_path)
      (λ b e.
        let same_path : p ≡ q = cc in
        subst (λ t. is_clean_abs_path paths t ≡ true) same_path (named_path p b))

hex_lem : is_64_hex hex_64 ≡ true
unfolding is_64_hex
hex_lem = refl

port_lem : has_text (codes "http://127.0.0.1:7") ≡ true
unfolding is_space
port_lem = refl

sound : Sound site empty
sound = record {
  dated = refl;
  spec_digest = λ raw. hex_lem;
  git_digest = λ out. hex_lem;
  abs_path = absolute_path;
  linked_path = λ p q c e. absurd (cc);
  one_parser = refl;
  port_url = λ n p. text-valid "http://127.0.0.1:7" port_lem;
  slashes = slashes_valid;
  processes = λ p c r e f. absurd (cc);
}

-- The manifest of what an attempt has found.
abbrev manifest_after : Attempt Findings → RunManifest
manifest_after (done f) = manifest_of site f
manifest_after (exits c) = made

made_lem : (f : Findings) → gather site options empty ≡ done f → manifest_of site f ≡ made
unfolding gather read_target find_endpoints read_session find_profile read_effort bind_worktree
    worktrees_on check_policy check_lease canonical_physical_path get_git_repository_identity
    list_git_worktrees parse_worktrees parse_items split_zero parse_and_validate_run_spec
    validate_spec check_workspace check_normal check_policies check_tools check_profiles
    first_failure trim_space is_blank is_space are_paths_same_or_equivalent resolve_ao_endpoint
    collect resolve_run_file probe_ao_identity the_daemon trim_slashes resolve_gateway_endpoint
    validate_loopback_url check_url same_codes lower trim check_worktree_dirty_policy inspect_lease
    inspect_file lease_path manifest_of
made_lem f e = sym (ap manifest_after e)

writable : Writable site options empty "/m.json"
unfolding is_blank is_space
writable = record {
  path_of = refl;
  path_named = refl;
  flag_named = refl;
  temp_apart = refl;
  codec = λ f t g e. ap (λ (m : RunManifest). some (m, true)) (sym (made_lem f g));
  readable = refl;
}

run_attach-read_manifest_example :
    (read_manifest site.disk.reader "/m.json" (content_at site.disk made "/m.json" files_after)
      ≡ ok made)
    × WellFormed site.disk.reader made
run_attach-read_manifest_example =
    run_attach-read_manifest site options empty files_after "/m.json" made 0 sound writable attached

run_attach-Exits_example : Exits site options empty (run_attach site options empty)
run_attach-Exits_example = run_attach-Exits site options empty
