-- ===== src/Control/Manifest/Complete.antt =====
-- internal/workforce/control/manifest.go: `ReadManifest` accepts every document that is well formed.
use agents_coworkers.Prelude.{
  ◌≡◌, refl, sym, ◌⊎◌, inl, inr, Bool, true, false, ◌&&◌, ◌||◌, not, String, ◌==◌, eq_iff, Option,
  none, some, List, [], ◌∷◌, ◌++◌, any, is_nil, if◌then◌else◌, arith, subst,
}
use mathlib.Core.List.{Memᴰ}
use agents_coworkers.Prelude.Int.{ℤ, is_pos, int_eq}
use agents_coworkers.Prelude.Text.{is_blank}
use agents_coworkers.Recovery.Errors.{Error, ok}
use agents_coworkers.Recovery.Lease.{LeaseState}
use agents_coworkers.Control.Types.{
  RunManifest, EndpointsManifest, WorktreeBindingManifest, LeaseManifest,
}
use agents_coworkers.Control.Checks.{◌▸◌, Passes, Passes-first_failure, append-Passes}
use agents_coworkers.Control.Paths.{is_64_hex}
use agents_coworkers.Control.Manifest.{
  Reader, is_free, is_owned, is_locked, failed, header_checks, path_checks, binding_checks,
  discovery_failed, endpoint_checks, ownership_checks, check_manifest, read_manifest,
}
use agents_coworkers.Control.Manifest.WellFormed.{Recorded, Unlocked, Discovered, WellFormed}

differs_not : (a b : String) → a ≡ b → not (a == b) ≡ false
differs_not a b e = ground (arith, (eq_iff a b).1 e)

fails_not : (b : Bool) → b ≡ true → not b ≡ false
fails_not b e = ground (arith, e)

neither_lem : (a b : Bool) → a ≡ false → b ≡ false → (a || b) ≡ false
neither_lem a b e f = ground (arith, e, f)

no_error : (o : Option Error) → o ≡ none → failed o ≡ false
no_error none e = refl
no_error (some x) e = absurd (cc)

policy_passes :
    (x : String)
    → (x ≡ "require_clean") ⊎ (x ≡ "allow_dirty_recorded")
    → (not (x == "require_clean") && not (x == "allow_dirty_recorded")) ≡ false
policy_passes x (inl e) = ground (arith, (eq_iff x "require_clean").1 e)
policy_passes x (inr e) = ground (arith, (eq_iff x "allow_dirty_recorded").1 e)

-- The four checks of a worktree's cleanness.
abbrev WorktreePasses : WorktreeBindingManifest → Type 0
WorktreePasses w =
    ((w.dirty_policy == "require_clean" && not w.is_clean) ≡ false)
    × ((w.is_clean && not (w.porcelain_sha256 == "")) ≡ false)
    × ((not w.is_clean && not (w.dirty_policy == "allow_dirty_recorded")) ≡ false)
    × ((not w.is_clean && not (is_64_hex w.porcelain_sha256)) ≡ false)

not_required : (x : String) → x ≡ "allow_dirty_recorded" → (x == "require_clean") ≡ false
not_required x e = subst (λ (y : String). (y == "require_clean") ≡ false) (sym e) refl

worktree_passes : (w : WorktreeBindingManifest) → Recorded w → WorktreePasses w
worktree_passes w (inl (c, p)) = (
  ground (arith, c),
  ground (arith, (eq_iff w.porcelain_sha256 "").1 p),
  ground (arith, c),
  ground (arith, c),
)
worktree_passes w (inr (c, p, x)) = (
  ground (arith, c, not_required w.dirty_policy p),
  ground (arith, c),
  ground (arith, c, (eq_iff w.dirty_policy "allow_dirty_recorded").1 p),
  ground (arith, c, x),
)

-- The four checks of a lease's state.
abbrev StatePasses : LeaseState → ℤ → Type 0
StatePasses s pid =
    (is_locked s ≡ false)
    × ((is_free s && not (int_eq pid 0)) ≡ false)
    × ((is_owned s && not (is_pos pid)) ≡ false)
    × ((not (is_free s) && not (is_owned s)) ≡ false)

state_passes : (l : LeaseManifest) → Unlocked l → StatePasses l.observed_state l.observed_pid
state_passes l (inl (e, p)) =
    subst (λ (s : LeaseState). StatePasses s l.observed_pid) (sym e)
      (refl, fails_not (int_eq l.observed_pid 0) p, refl, refl)
state_passes l (inr (e, p)) =
    subst (λ (s : LeaseState). StatePasses s l.observed_pid) (sym e)
      (refl, refl, fails_not (is_pos l.observed_pid) p, refl)

-- The test of the switch, for a source.
abbrev SourcePasses : EndpointsManifest → String → Type 0
SourcePasses e s =
    (if s == "run_file"
      then not (is_pos e.ao_pid) || not (e.ao_pid_status == "VERIFIED")
      else if s == "explicit_url" || s == "environment_url"
      then not (int_eq e.ao_pid 0) || not (e.ao_pid_status == "NOT_OBSERVED")
      else true)
    ≡ false

discovery_passes : (e : EndpointsManifest) → Discovered e → discovery_failed e ≡ false
discovery_passes e (inl (s, p, v)) = subst (SourcePasses e) (sym s) (
    neither_lem (not (is_pos e.ao_pid)) (not (e.ao_pid_status == "VERIFIED"))
      (fails_not (is_pos e.ao_pid) p) (differs_not e.ao_pid_status "VERIFIED" v))
discovery_passes e (inr (s, p, v)) =
    let n =
      neither_lem (not (int_eq e.ao_pid 0)) (not (e.ao_pid_status == "NOT_OBSERVED"))
        (fails_not (int_eq e.ao_pid 0) p) (differs_not e.ao_pid_status "NOT_OBSERVED" v) in
    elim s [ inl a ↦ subst (SourcePasses e) (sym a) n | inr a ↦ subst (SourcePasses e) (sym a) n ]

listed_any : (a : String) (l : List String) → Memᴰ a l → any (λ x. x == a) l ≡ true
listed_any a [] m = elim m [ ]
listed_any a (x ∷ l) (Memᴰ.head e) = ground (arith, (eq_iff x a).1 (sym e))
listed_any a (x ∷ l) (Memᴰ.tail m) = ground (arith, listed_any a l m)

listed_not_nil : (a : String) (l : List String) → Memᴰ a l → is_nil l ≡ false
listed_not_nil a [] m = elim m [ ]
listed_not_nil a (x ∷ l) m = refl

module _ (h : Reader) (m : RunManifest) (w : WellFormed h m) where
  header-Passes : Passes (header_checks h m)
  header-Passes =
      (differs_not _ _ w.schema
        ▸ w.named
        ▸ fails_not _ w.spec_hash
        ▸ fails_not _ w.dated
        ▸ differs_not _ _ w.author
        ▸ tt)

  paths_pass : Passes (path_checks h m)
  paths_pass =
      (fails_not _ w.root_path
        ▸ fails_not _ w.workspace_path
        ▸ fails_not _ w.repository_path
        ▸ fails_not _ w.worktree_path
        ▸ fails_not _ w.lease_path
        ▸ w.commits_named
        ▸ w.branch_named
        ▸ fails_not _ w.worktree_place
        ▸ fails_not _ w.lease_place
        ▸ tt)

  bindings_pass : Passes (binding_checks h m)
  bindings_pass =
      let (a, b, c, d) = worktree_passes m.worktree_binding w.recorded in
      (w.session_named
        ▸ w.worktree_named
        ▸ fails_not _ w.porcelain_read
        ▸ policy_passes m.worktree_binding.dirty_policy w.policy_known
        ▸ a
        ▸ b
        ▸ c
        ▸ d
        ▸ neither_lem _ _ (differs_not _ _ w.session_branch) (differs_not _ _ w.worktree_branch)
        ▸ differs_not _ _ w.worktree_head
        ▸ differs_not _ _ w.at_baseline
        ▸ w.profile_named
        ▸ differs_not _ _ w.verified_profile
        ▸ tt)

  endpoints_pass : Passes (endpoint_checks h m)
  endpoints_pass =
      (no_error _ w.ao_loopback
        ▸ w.daemon_named
        ▸ discovery_passes m.endpoints w.discovered
        ▸ no_error _ w.gateway_loopback
        ▸ neither_lem _ _ (differs_not _ _ (w.catalog_read.0)) (differs_not _ _ (w.catalog_read.1))
        ▸ w.no_provider_call
        ▸ differs_not _ _ w.no_credential
        ▸ listed_not_nil _ _ w.model_listed
        ▸ fails_not _ (listed_any _ _ w.model_listed)
        ▸ tt)

  ownership-Passes : Passes (ownership_checks h m)
  ownership-Passes =
      let (a, b, c, d) = state_passes m.lease w.unlocked in
      (fails_not _ w.audit_hash
        ▸ fails_not _ w.audit_only
        ▸ neither_lem _ _
            (neither_lem _ _ (differs_not _ _ (w.lease_owner.0))
              (differs_not _ _ (w.lease_owner.1)))
            (differs_not _ _ w.lease_task)
        ▸ a
        ▸ b
        ▸ c
        ▸ d
        ▸ tt)

  manifest_passes : check_manifest h m ≡ none
  unfolding check_manifest
  manifest_passes =
      let a = header_checks h m in
      let b = path_checks h m in
      let c = binding_checks h m in
      let d = endpoint_checks h m in
      let k = ownership_checks h m in
      Passes-first_failure (a ++ b ++ c ++ d ++ k) (
        append-Passes (a ++ b ++ c ++ d) k
          (append-Passes (a ++ b ++ c) d
            (append-Passes (a ++ b) c (append-Passes a b header-Passes paths_pass) bindings_pass)
            endpoints_pass)
          ownership-Passes)

-- A document that is decoded strictly to the end of a file, and is well formed, is accepted as it is.
pub WellFormed-read_manifest :
    (h : Reader) (path text : String) (m : RunManifest)
    → is_blank path ≡ false
    → h.decode text ≡ some (m, true)
    → WellFormed h m
    → read_manifest h path (ok text) ≡ ok m
unfolding read_manifest
WellFormed-read_manifest h path text m p d w = rw (p, d, manifest_passes h m w)
