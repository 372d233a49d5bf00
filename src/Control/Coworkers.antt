-- ===== src/Control/Coworkers.antt =====
-- cmd/coworkers/main.go, `runCLI`, and `ParseDoctorFlags` of internal/workforce/control/doctor.go: the
-- subcommands and the exit code. The flag package is a parameter; what is printed is not modelled.
pub mod Exits
use agents_coworkers.Prelude.{
  ℕ, Bool, true, false, ◌||◌, not, String, ◌==◌, Option, none, some, List, [], ◌∷◌, any,
  if◌then◌else◌,
}
use agents_coworkers.Prelude.Text.{trim_space}
use agents_coworkers.Recovery.Errors.{Result}
use agents_coworkers.Recovery.Lease.{Dir}
use agents_coworkers.Control.Types.{DoctorReport, RunManifest}
use agents_coworkers.Control.Doctor.{run_doctor}
use agents_coworkers.Control.Attach.{AttachOptions, parse_attach_flags, Site}
use agents_coworkers.Control.Attach.Publishing.{run_attach}
use agents_coworkers.Control.GitWorktrees.{strip_text}
use agents_coworkers.Control.Status.{StatusOptions, StatusReport, parse_status_flags, run_status}

pub record DoctorOptions : Type 0 where
  pub spec_path : String
  pub ao_url : String
  pub gateway_url : String
  pub json : Bool

-- `strings.HasPrefix(s, prefix)`
abbrev pub has_prefix : String → String → Bool
has_prefix prefix s = elim (strip_text prefix s) [ none ↦ false | some rest ↦ true ]

abbrev pub names_manifest : String → Bool
names_manifest arg = has_prefix "--manifest" arg || has_prefix "-manifest" arg

-- `ParseDoctorFlags`, on the arguments and on what `fs.Parse` reads, with the flag `--manifest` that
-- the command forbids; `none` if it fails.
unfoldable pub parse_doctor_flags :
    List String → Option (DoctorOptions × String) → Option DoctorOptions × ℕ
parse_doctor_flags args none = (none, 1)
parse_doctor_flags args (some (o, manifest)) =
    if not (manifest == "")
    then (none, 2)
    else if any names_manifest args
    then (none, 2)
    else if trim_space o.spec_path == ""
    then (none, 2)
    else (some o, 0)

-- What `fs.Parse` reads of the arguments of each command, and the files that the commands read.
pub record Shell : Type 0 where
  pub doctor_flags : List String → Option (DoctorOptions × String)
  pub attach_flags : List String → Option AttachOptions
  pub status_flags : List String → Option StatusOptions
  -- what the commands see of the machine, for the spec of a path
  pub site : String → Site
  -- `os.ReadFile` of a manifest
  pub read_manifest_file : String → Dir → Result String

-- The exit code, and the files after the command.
module _ (k : Shell) where
  abbrev pub doctor_command : Dir → Option DoctorOptions × ℕ → ℕ × Dir
  doctor_command d (none, code) = (code, d)
  doctor_command d (some o, code) =
      ((run_doctor (k.site o.spec_path).surroundings o.ao_url o.gateway_url).1, d)

  abbrev pub attach_command : Dir → Option AttachOptions × ℕ → ℕ × Dir
  attach_command d (none, code) = (code, d)
  attach_command d (some o, code) =
      ((run_attach (k.site o.spec_path) o d).1, (run_attach (k.site o.spec_path) o d).2)

  abbrev pub status_command : Dir → Option StatusOptions × ℕ → ℕ × Dir
  status_command d (none, code) = (code, d)
  status_command d (some o, code) =
      let s = k.site "" in
      (
        (run_status s.surroundings.machine s.disk.reader s.lease_host o
            (k.read_manifest_file o.manifest_path d) d).1,
        d,
      )

  -- `runCLI`
  unfoldable pub run_cli : List String → Dir → ℕ × Dir
  run_cli [] d = (1, d)
  run_cli (subcommand ∷ args) d =
      if subcommand == "doctor"
      then doctor_command d (parse_doctor_flags args (k.doctor_flags args))
      else if subcommand == "attach"
      then attach_command d (parse_attach_flags (k.attach_flags args))
      else if subcommand == "status"
      then status_command d (parse_status_flags (k.status_flags args))
      else (1, d)
