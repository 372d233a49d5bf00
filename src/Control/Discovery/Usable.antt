-- ===== src/Control/Discovery/Usable.antt =====
-- internal/workforce/control/discovery.go: what the manifest needs of a daemon that was found.
use Prim.Native.String.{◌++◌ as ◌<>◌}
use agents_coworkers.Prelude.{◌≡◌, refl, ◌∙◌, ◌⊎◌, inl, inr, true, false, String}
use agents_coworkers.Prelude.Int.{ℤ, pos, is_pos}
use agents_coworkers.Prelude.Text.{trim_slashes, is_blank}
use agents_coworkers.Control.Types.{AoDiscoveryResult}
use agents_coworkers.Control.Loopback.{validate_loopback_url}
use agents_coworkers.Control.Manifest.{failed}
use agents_coworkers.Control.Discovery.{Machine}
use agents_coworkers.Control.Discovery.Daemon.{Addressed, Running}
use agents_coworkers.Control.Discovery.Trust.{Trusted}

-- An URL of the port that a run file names, or a loopback URL that was given, without slashes at its
-- end.
abbrev pub Placed : Machine → String → Type 0
Placed h url =
    ((port : ℤ) × (is_pos port ≡ true) × (url ≡ "http://127.0.0.1:" <> h.decimal port))
    ⊎ ((given : String) × (failed (validate_loopback_url h.parse_url given) ≡ false)
        × (url ≡ trim_slashes given))

-- The daemon has a name, a place, and a process exactly if a run file named it.
pub record Usable (h : Machine) (r : AoDiscoveryResult) : Type 0 where
  pub identified_as : is_blank r.identity ≡ false
  pub place : Placed h r.url
  pub source :
      ((r.discovery_source ≡ "run_file") × (is_pos r.pid ≡ true) × (r.pid_status ≡ "VERIFIED"))
      ⊎ (((r.discovery_source ≡ "explicit_url") ⊎ (r.discovery_source ≡ "environment_url"))
          × (r.pid ≡ pos 0)
          × (r.pid_status ≡ "NOT_OBSERVED"))

module _ (h : Machine) (r : AoDiscoveryResult) where
  Addressed-Usable :
      (given source : String)
      → (source ≡ "explicit_url") ⊎ (source ≡ "environment_url")
      → Addressed h given source r
      → Usable h r
  Addressed-Usable given source s a = record {
    identified_as = a.told.3;
    place = inr (given, a.loopback, a.url_is);
    source = inr (
      elim s [ inl e ↦ inl (a.source_is ∙ e) | inr e ↦ inr (a.source_is ∙ e) ],
      a.no_pid,
      a.not_observed,
    );
  }

  Running-Usable : (path : String) → Running h path r → Usable h r
  Running-Usable path a = record {
    identified_as = a.told.3;
    place = inl ((a.file).port, a.has_port, a.url_is);
    source = inl (a.source_is, a.has_pid, a.verified);
  }

  pub Trusted-Usable : (url : String) → Trusted h url r → Usable h r
  Trusted-Usable url (inl (n, a)) = Addressed-Usable url "explicit_url" (inl refl) a
  Trusted-Usable url (inr (n, inl (b, a))) =
      Addressed-Usable (h.env "AO_BASE_URL") "environment_url" (inr refl) a
  Trusted-Usable url (inr (n, inr (b, inl (f, a)))) = Running-Usable (h.env "AO_RUN_FILE") a
  Trusted-Usable url (inr (n, inr (b, inr (f, (p, m, e, a))))) = Running-Usable p a
