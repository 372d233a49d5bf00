-- ===== src/Control/Attach/Opened.antt =====
-- internal/workforce/control/attach.go, `RunAttach`, step 3: the session that is attached.
use Prim.Native.String.{◌++◌ as ◌<>◌}
use agents_coworkers.Prelude.{
  ◌≡◌, refl, false, String, ◌==◌, eq_iff, some, List, [], ◌∷◌, Bool-cases, inl, inr,
}
use mathlib.Core.List.{Memᴰ}
use agents_coworkers.Prelude.Text.{trim_space, trim_slashes, is_blank}
use agents_coworkers.Prelude.Text.Blank.{trim_space-is_blank, is_blank-trim_space}
use agents_coworkers.Control.Types.{RunSpec, ProfileSpec, AoDiscoveryResult, GatewayResult}
use agents_coworkers.Control.Checks.{Passes, same, holds, neither, any_same}
use agents_coworkers.Control.Attempt.{Ends, Fetched, after_checks, after_option, after_fetch}
use agents_coworkers.Control.Attach.{AttachOptions, Session, Settings, Site}
use agents_coworkers.Control.Attach.Reading.{
  profile_checks, session_checks, find_profile, read_session, settings_checks, read_effort,
}

module _ (h : Site) (o : AttachOptions) where
  -- The session is the one of the flag, has all of its names, is alive, and has a model of the
  -- gateway's catalog.
  pub record Attachable (gateway : GatewayResult) (s : Session) : Type 0 where
    pub id_named : is_blank s.id ≡ false
    pub same_id : s.id ≡ o.session_id
    pub project_named : is_blank s.project_id ≡ false
    pub branch_named : is_blank s.branch ≡ false
    pub kind_named : is_blank s.kind ≡ false
    pub harness_named : is_blank s.harness ≡ false
    pub model_named : is_blank s.model ≡ false
    pub alive : s.is_terminated ≡ false
    pub model_listed : Memᴰ s.model gateway.observed_models

  session_checks-Attachable :
      (gateway : GatewayResult) (s : Session)
      → Passes (session_checks h o gateway s)
      → Attachable gateway s
  session_checks-Attachable gateway s c =
      let (id, same_id) = neither _ _ (c.0) in
      record {
        id_named = trim_space-is_blank s.id id;
        same_id = same s.id o.session_id same_id;
        project_named = trim_space-is_blank s.project_id (c.1.0);
        branch_named = trim_space-is_blank s.branch (c.1.1.0);
        kind_named = trim_space-is_blank s.kind (c.1.1.1.0);
        harness_named = trim_space-is_blank s.harness (c.1.1.1.1.0);
        model_named = trim_space-is_blank s.model (c.1.1.1.1.1.0);
        alive = c.1.1.1.1.1.1.0;
        model_listed = any_same _ _ (holds _ (c.1.1.1.1.1.1.1.0));
      }

  -- The spec has this profile for the kind.
  abbrev pub ProfileOf : RunSpec → String → ProfileSpec → Type 0
  ProfileOf spec kind p =
      (q : String × ProfileSpec) × Memᴰ q spec.profiles × (q.0 ≡ kind) × (q.1 ≡ p)

  find_profile-Mem :
      (kind : String) (ps : List (String × ProfileSpec)) (p : ProfileSpec)
      → find_profile h kind ps ≡ some p
      → (q : String × ProfileSpec) × Memᴰ q ps × (q.0 ≡ kind) × (q.1 ≡ p)
  unfolding find_profile
  find_profile-Mem kind [] p e = absurd (cc)
  find_profile-Mem kind (q ∷ ps) p e = elim (Bool-cases (q.0 == kind)) [
    | inl k ↦ (q, Memᴰ.head refl, (eq_iff (q.0) kind).0 k, cc (rw k at e))
    | inr k ↦ let (x, m, i, f) = find_profile-Mem kind ps p (rw k at e) in (x, Memᴰ.tail m, i, f)
  ]

  -- The daemon answered the request for the session of the flag with this session.
  abbrev pub Opened : RunSpec → AoDiscoveryResult × GatewayResult → Session × ProfileSpec → Type 0
  Opened spec ends s =
      Fetched h.decode_session (s.0)
        (h.query (trim_slashes (ends.0).url <> ("/api/v1/sessions/" <> h.path_escape o.session_id)))
      × Attachable (ends.1) (s.0)
      × ProfileOf spec (s.0).kind (s.1)
      × ((s.0).model ≡ (s.1).model)

  pub read_session-Opened :
      (spec : RunSpec) (ends : AoDiscoveryResult × GatewayResult)
      → Ends (Opened spec ends) (read_session h o spec ends)
  unfolding read_session
  read_session-Opened spec ends =
      let Q = Opened spec ends in
      after_fetch Q h.decode_session (h.query _) _ λ s f.
        after_checks Q (session_checks h o (ends.1) s) _ λ r.
          after_option Q (find_profile h s.kind spec.profiles) _ λ p e.
            after_checks Q (profile_checks h s p) _ λ q.
              let facts : Opened spec ends (s, p) = (
                f,
                session_checks-Attachable (ends.1) s r,
                find_profile-Mem s.kind spec.profiles p e,
                same s.model p.model (q.0),
              ) in
              facts

  -- The daemon answered the request for the session's conversation with settings that have the
  -- session's model and this effort, which is the profile's.
  abbrev pub Set : AoDiscoveryResult → Session × ProfileSpec → String → Type 0
  Set ao s effort =
      (settings : Settings) × Fetched h.decode_settings settings (
        h.query (
          (trim_slashes ao.url <> ("/api/v1/sessions/" <> h.path_escape o.session_id))
          <> "/conversation?limit=1"))
      × (trim_space settings.model ≡ (s.0).model)
      × (trim_space settings.reasoning_effort ≡ effort)
      × (effort ≡ (s.1).reasoning_effort)
      × (is_blank effort ≡ false)

  pub read_effort-Set :
      (ao : AoDiscoveryResult) (s : Session × ProfileSpec) → Ends (Set ao s) (read_effort h o ao s)
  unfolding read_effort
  read_effort-Set ao s = after_fetch (Set ao s) h.decode_settings (h.query _) _ λ t f.
      after_checks (Set ao s) (settings_checks h (s.0) (s.1) t) _ λ r.
        let facts : Set ao s (trim_space t.reasoning_effort) = (
          t,
          f,
          same _ _ (r.1.0),
          refl,
          same _ _ (r.1.1.1.1.0),
          is_blank-trim_space _ (r.1.1.1.0),
        ) in
        facts
