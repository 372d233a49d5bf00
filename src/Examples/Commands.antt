-- ===== src/Examples/Commands.antt =====
-- The commands of cmd/coworkers, on the machine and the files of the other examples.
use agents_coworkers.Prelude.{◌≡◌, refl, false, some, none, [], ◌∷◌}
use agents_coworkers.Prelude.Text.{
  trim_slashes, is_blank, is_space, same_codes, lower, trim, trim_space,
}
use agents_coworkers.Recovery.Errors.{ok}
use agents_coworkers.Recovery.Lease.{inspect_lease, inspect_file}
use agents_coworkers.Control.Checks.{first_failure}
use agents_coworkers.Control.Paths.{
  is_64_hex, is_40_hex, is_clean_abs_path, are_paths_same_or_equivalent,
}
use agents_coworkers.Control.Loopback.{validate_loopback_url, check_url}
use agents_coworkers.Control.Discovery.{probe_ao_identity}
use agents_coworkers.Control.Manifest.{check_manifest, read_manifest}
use agents_coworkers.Control.Status.{
  StatusOptions, parse_status_flags, check_ao_url, check_gateway_url, inspect_run, run_status,
}
use agents_coworkers.Control.Status.Inspected.{Reports, run_status-Reports}
use agents_coworkers.Control.Coworkers.{Shell, run_cli}
use agents_coworkers.Examples.Documents.{empty}
use agents_coworkers.Examples.Attaching.{site, options}

abbrev status_options : StatusOptions
status_options = record {
  manifest_path = "m.json";
  ao_url = "http://127.0.0.1:7/";
  gateway_url = "";
  json = false;
}

status_passes :
    (run_status site.surroundings.machine site.disk.reader site.lease_host status_options
      (ok "document")
      empty).1
    ≡ 0
unfolding run_status inspect_run check_ao_url check_gateway_url probe_ao_identity trim_slashes
    read_manifest check_manifest first_failure is_64_hex is_40_hex is_clean_abs_path
    are_paths_same_or_equivalent validate_loopback_url check_url is_blank is_space same_codes lower
    trim inspect_lease inspect_file
status_passes = refl

run_status-Reports_example :
    Reports site.surroundings.machine site.disk.reader site.lease_host status_options
      (ok "document")
      empty
      (run_status site.surroundings.machine site.disk.reader site.lease_host status_options
        (ok "document")
        empty)
run_status-Reports_example =
    run_status-Reports site.surroundings.machine site.disk.reader site.lease_host status_options
      (ok "document") empty

abbrev shell : Shell
shell = record {
  doctor_flags = λ args. none;
  attach_flags = λ args. some options;
  status_flags = λ args. some status_options;
  site = λ p. site;
  read_manifest_file = λ p d. ok "document";
}

cli_passes : (run_cli shell ("status" ∷ "--manifest" ∷ "m.json" ∷ []) empty).0 ≡ 0
unfolding run_cli parse_status_flags trim_space run_status inspect_run check_ao_url
    check_gateway_url probe_ao_identity trim_slashes read_manifest check_manifest first_failure
    is_64_hex is_40_hex is_clean_abs_path are_paths_same_or_equivalent validate_loopback_url
    check_url is_blank is_space same_codes lower trim inspect_lease inspect_file
cli_passes = refl
