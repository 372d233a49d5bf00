-- ===== src/Control/Coworkers/Exits.antt =====
-- cmd/coworkers/main.go: how the coworkers command ends for its arguments.
use agents_coworkers.Prelude.{
  ℕ, ◌≡◌, ◌≢◌, ◌⊎◌, false, String, ◌==◌, Option, none, some, List, [], ◌∷◌, any,
}
use agents_coworkers.Prelude.Text.{trim_space}
use agents_coworkers.Recovery.Lease.{Dir}
use agents_coworkers.Control.Types.{DoctorReport, RunManifest}
use agents_coworkers.Control.Doctor.Health.{Healthy}
use agents_coworkers.Control.Attach.{AttachOptions}
use agents_coworkers.Control.Attach.Publishing.{run_attach}
use agents_coworkers.Control.Attach.Results.{Made}
use agents_coworkers.Control.Status.{StatusOptions, StatusReport}
use agents_coworkers.Control.Status.Inspected.{Reported}
use agents_coworkers.Control.Coworkers.{DoctorOptions, names_manifest, Shell}

-- A flag that has a text which is not only spaces.
abbrev pub Given : String → Type 0
Given x = (trim_space x == "") ≡ false

-- The flags that each command needs, and the one that the doctor forbids.
abbrev pub DoctorFlags : List String → DoctorOptions × String → Type 0
DoctorFlags args x = (x.1 ≡ "") × (any names_manifest args ≡ false) × Given (x.0).spec_path

abbrev pub AttachFlags : AttachOptions → Type 0
AttachFlags o = Given o.spec_path × Given o.session_id × Given o.workspace × Given o.manifest_path

abbrev pub StatusFlags : StatusOptions → Type 0
StatusFlags o = Given o.manifest_path

-- Flags that could not be parsed end with the code 1, and others that are not as needed with 2.
abbrev pub Refused : {A : Type 0} → (A → Type 0) → Option A → ℕ → Type 0
Refused {A} V p c = ((p ≡ none) × (c ≡ 1)) ⊎ ((x : A) × (p ≡ some x) × (V x → ⊥) × (c ≡ 2))

abbrev pub Taken : {A : Type 0} → (A → Type 0) → Option A → A → Type 0
Taken V p x = (p ≡ some x) × V x

abbrev Parsed : {A O : Type 0} → (A → Type 0) → (A → O) → Option A → Option O × ℕ → Type 0
Parsed V g p (none, c) = Refused V p c
Parsed {A} V g p (some o, c) = (x : A) × Taken V p x × (g x ≡ o)

module _ (k : Shell) (d : Dir) where
  -- The code 2 or 3.
  abbrev pub Failed : ℕ → Type 0
  Failed c = (c ≡ 2) ⊎ (c ≡ 3)

  -- Each command refuses its flags, or runs with them; the doctor and the status change no file.
  abbrev pub DoctorEnds : List String → ℕ × Dir → Type 0
  DoctorEnds args r =
      (r.1 ≡ d)
      × (Refused (DoctorFlags args) (k.doctor_flags args) (r.0)
          ⊎ ((x : DoctorOptions × String) × Taken (DoctorFlags args) (k.doctor_flags args) x
              × (((r.0 ≡ 0)
                    × ((q : DoctorReport) × Healthy (k.site (x.0).spec_path).surroundings
                          (x.0).ao_url (x.0).gateway_url q))
                  ⊎ Failed (r.0))))

  abbrev pub AttachEnds : List String → ℕ × Dir → Type 0
  AttachEnds args r =
      (Refused AttachFlags (k.attach_flags args) (r.0) × (r.1 ≡ d))
      ⊎ ((o : AttachOptions) × Taken AttachFlags (k.attach_flags args) o
          × (((r.0 ≡ 0) × ((m : RunManifest) × Made (k.site o.spec_path) o d m (r.1)))
              ⊎ (Failed (r.0) × ((run_attach (k.site o.spec_path) o d).0 ≡ none))))

  abbrev pub StatusEnds : List String → ℕ × Dir → Type 0
  StatusEnds args r =
      (r.1 ≡ d)
      × (Refused StatusFlags (k.status_flags args) (r.0)
          ⊎ ((o : StatusOptions) × Taken StatusFlags (k.status_flags args) o
              × (((r.0 ≡ 0)
                    × ((report : StatusReport) × Reported (k.site "").surroundings.machine
                          (k.site "").disk.reader (k.site "").lease_host o
                          (k.read_manifest_file o.manifest_path d) d report))
                  ⊎ Failed (r.0))))

  -- The end of the command with these arguments.
  abbrev pub Codes : List String → ℕ × Dir → Type 0
  Codes [] r = r ≡ (1, d)
  Codes (name ∷ args) r =
      ((name ≡ "doctor") × DoctorEnds args r)
      ⊎ (((name ≡ "attach") × AttachEnds args r)
          ⊎ (((name ≡ "status") × StatusEnds args r)
              ⊎ ((name ≢ "doctor") × (name ≢ "attach") × (name ≢ "status") × (r ≡ (1, d)))))
