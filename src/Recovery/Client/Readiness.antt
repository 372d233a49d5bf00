-- ===== src/Recovery/Client/Readiness.antt =====
-- internal/recovery/ao_http.go: what `Preflight` has established when it returns no error.
use Prim.Native.String.{◌++◌ as ◌<>◌}
use agents_coworkers.Prelude.{
  ℕ, ◌≡◌, refl, true, false, not, ◌&&◌, ◌||◌, Bool, String, ◌==◌, eq_iff, Option, none, some, arith,
  nat_eq, if-intro, option-intro, ◌∷◌,
}
use agents_coworkers.Recovery.Errors.{Error, result-intro, ok}
use agents_coworkers.Recovery.World.{SessionExpectation}
use agents_coworkers.Recovery.Client.{
  ConversationSnapshot, SessionView, Trace, Server, Request, get,
}
use agents_coworkers.Recovery.Client.Browsing.{ok_status}
use agents_coworkers.Recovery.Client.Session.{
  is_incomplete, differs, is_partial, check_session, check_conversation, judge_conversation,
  read_settings, preflight_session, preflight,
}

-- The session is the one that is expected, alive, and for this task alone.
pub record Owned (x : SessionExpectation) (v : SessionView) : Type 0 where
  pub same_id : v.id ≡ x.session_id
  pub same_project : v.project_id ≡ x.project_id
  pub same_kind : v.kind ≡ x.kind
  pub same_harness : v.harness ≡ x.harness
  pub same_model : v.model ≡ x.model
  pub same_branch : v.branch ≡ x.branch
  pub alive : v.is_terminated ≡ false
  pub exclusive : x.exclusive ≡ true

-- The conversation waits for a message, with the expected model and effort.
pub record Idle (x : SessionExpectation) (p : ConversationSnapshot) : Type 0 where
  pub ready : p.controller ≡ "ready"
  pub same_model : p.model ≡ x.model
  pub same_effort : p.reasoning_effort ≡ x.effort

-- The requests for the session and for its conversation.
abbrev pub session_request : Server → SessionExpectation → Request
session_request s x = get ("/api/v1/sessions/" <> s.path_escape x.session_id)

abbrev pub settings_request : Server → SessionExpectation → Request
settings_request s x =
    get (("/api/v1/sessions/" <> s.path_escape x.session_id) <> "/conversation?limit=1")

-- AO answered the request with status 200 and such a session.
abbrev pub ShowsSession : Server → SessionExpectation → Trace → Type 0
ShowsSession s x t =
    (v : SessionView) × (body : String) × (s.answer t (session_request s x) ≡ ok (200, body))
    × (s.decode_session body ≡ some v)
    × Owned x v

-- And then the next one with status 200 and such a conversation.
abbrev pub ShowsIdle : Server → SessionExpectation → Trace → Type 0
ShowsIdle s x t =
    (p : ConversationSnapshot) × (body : String) × (s.answer t (settings_request s x)
      ≡ ok (200, body))
    × (s.decode_snapshot body ≡ some p)
    × Idle x p

-- From the requests `t` on, AO was asked the two and showed such a session and conversation.
abbrev pub Prepared : Server → SessionExpectation → Trace → Option Error × Trace → Type 0
Prepared s x t (some y, t') = Unit
Prepared s x t (none, t') =
    (t' ≡ settings_request s x ∷ session_request s x ∷ t)
    × ShowsSession s x t
    × ShowsIdle s x (session_request s x ∷ t)

same : (a b : String) → not (a == b) ≡ false → a ≡ b
same a b h = (eq_iff a b).0 (ground (arith, h))

or_false : {a b : Bool} → (a || b) ≡ false → (a ≡ false) × (b ≡ false)
or_false {a = true} h = absurd (cc)
or_false {a = false} h = (refl, h)

-- A field that the expectation must name, and that must agree if it is named.
agrees : (a b : String) → (b == "") ≡ false → (not (b == "") && not (a == b)) ≡ false → a ≡ b
agrees a b n h = same a b (ground (arith, n, h))

-- The fields that a task must name.
record Complete (x : SessionExpectation) : Type 0 where
  names_project : (x.project_id == "") ≡ false
  names_kind : (x.kind == "") ≡ false
  names_harness : (x.harness == "") ≡ false
  names_model : (x.model == "") ≡ false
  names_branch : (x.branch == "") ≡ false
  is_exclusive : x.exclusive ≡ true

not_incomplete : (x : SessionExpectation) → is_incomplete x ≡ false → Complete x
not_incomplete x h =
    let (r, l) = or_false {b = not x.exclusive} h in
    let (r₁, b) = or_false r in
    let (r₂, e) = or_false {b = x.effort == ""} r₁ in
    let (r₃, m) = or_false r₂ in
    let (r₄, a) = or_false r₃ in
    let (r₅, k) = or_false r₄ in
    let (i, p) = or_false {a = x.session_id == ""} r₅ in
    record {
      names_project = p;
      names_kind = k;
      names_harness = a;
      names_model = m;
      names_branch = b;
      is_exclusive = ground (arith, l);
    }

not_differs-Owned :
    (x : SessionExpectation) (v : SessionView) → Complete x → differs x v ≡ false → Owned x v
not_differs-Owned x v c h =
    let (r, b) = or_false h in
    let (r₁, m) = or_false r in
    let (r₂, a) = or_false r₁ in
    let (r₃, k) = or_false r₂ in
    let (r₄, p) = or_false r₃ in
    let (i, d) = or_false r₄ in
    record {
      same_id = same v.id x.session_id i;
      same_project = agrees v.project_id x.project_id c.names_project p;
      same_kind = agrees v.kind x.kind c.names_kind k;
      same_harness = agrees v.harness x.harness c.names_harness a;
      same_model = agrees v.model x.model c.names_model m;
      same_branch = agrees v.branch x.branch c.names_branch b;
      alive = d;
      exclusive = c.is_exclusive;
    }

-- `P` if there was no error.
abbrev Unless : Type 0 → Option Error → Type 0
Unless P (some y) = Unit
Unless P none = P

Unless-elim : {P : Type 0} (y : Option Error) → Unless P y → y ≡ none → P
Unless-elim (some y) u h = absurd (cc)
Unless-elim none u h = u

check_session-Unless :
    (x : SessionExpectation) (v : SessionView) → Unless (Owned x v) (check_session x v)
unfolding check_session
check_session-Unless x v =
    if-intro (Unless (Owned x v)) (is_incomplete x) (λ _. tt)
      λ i.
        if-intro (Unless (Owned x v)) (differs x v) (λ _. tt)
          λ d.
            if-intro (Unless (Owned x v)) (is_partial v) (λ _. tt)
              (λ _. not_differs-Owned x v (not_incomplete x i) d)

check_session-Owned :
    (x : SessionExpectation) (v : SessionView) → check_session x v ≡ none → Owned x v
check_session-Owned x v h = Unless-elim (check_session x v) (check_session-Unless x v) h

check_conversation-Unless :
    (x : SessionExpectation) (p : ConversationSnapshot) → Unless (Idle x p) (check_conversation x p)
unfolding check_conversation
check_conversation-Unless x p =
    if-intro (Unless (Idle x p)) (not (p.controller == "ready")) (λ _. tt)
      λ c.
        if-intro (Unless (Idle x p))
          (p.model == ""
            || p.reasoning_effort == ""
            || not (p.model == x.model)
            || not (p.reasoning_effort == x.effort))
          (λ _. tt)
          λ h.
            let (r, e) = or_false h in
            let (n, m) = or_false r in
            record {
              ready = same p.controller "ready" c;
              same_model = same p.model x.model m;
              same_effort = same p.reasoning_effort x.effort e;
            }

check_conversation-Idle :
    (x : SessionExpectation) (p : ConversationSnapshot) → check_conversation x p ≡ none → Idle x p
check_conversation-Idle x p h =
    Unless-elim (check_conversation x p) (check_conversation-Unless x p) h

judge_conversation-Idle :
    (s : Server) (x : SessionExpectation) (t : Trace) (a : ℕ × String)
    → s.answer t (settings_request s x) ≡ ok a
    → Unless (ShowsIdle s x t) (judge_conversation s x a)
judge_conversation-Idle s x t a e =
    let P = Unless (ShowsIdle s x t) in
    if-intro P (not (nat_eq (a.0) 200)) (λ _. tt)
      λ h.
        option-intro P (s.decode_snapshot (a.1)) (λ _. tt)
          λ p d.
            let k = ok_status s t (settings_request s x) a e h in
            shown p d k (check_conversation x p) refl
  where
    shown :
        (p : ConversationSnapshot)
        → s.decode_snapshot (a.1) ≡ some p
        → s.answer t (settings_request s x) ≡ ok (200, a.1)
        → (y : Option Error) → check_conversation x p ≡ y
        → Unless (ShowsIdle s x t) y
    shown p d k (some y) c = tt
    shown p d k none c = (p, a.1, k, d, check_conversation-Idle x p c)

read_settings-Prepared :
    (s : Server) (x : SessionExpectation) (t : Trace)
    → ShowsSession s x t
    → Prepared s x t (read_settings s x (session_request s x ∷ t))
unfolding read_settings
read_settings-Prepared s x t o =
    let t₁ = session_request s x ∷ t in
    result-intro (Prepared s x t) (s.answer t₁ (settings_request s x)) (λ y _. tt)
      λ a e. judged (judge_conversation s x a) (judge_conversation-Idle s x t₁ a e)
  where
    judged :
        (y : Option Error)
        → Unless (ShowsIdle s x (session_request s x ∷ t)) y
        → Prepared s x t (y, settings_request s x ∷ session_request s x ∷ t)
    judged (some z) r = tt
    judged none r = (refl, o, r)

preflight_session-Prepared :
    (s : Server) (x : SessionExpectation) (t : Trace) (a : ℕ × String)
    → s.answer t (session_request s x) ≡ ok a
    → Prepared s x t (preflight_session s x a (session_request s x ∷ t))
unfolding preflight_session
preflight_session-Prepared s x t a e =
    let P = Prepared s x t in
    if-intro P (not (nat_eq (a.0) 200)) (λ _. tt)
      λ h.
        option-intro P (s.decode_session (a.1)) (λ _. tt)
          λ v d.
            option-intro P (check_session x v)
              (λ c.
                let k = ok_status s t (session_request s x) a e h in
                read_settings-Prepared s x t (v, a.1, k, d, check_session-Owned x v c))
              (λ y c. tt)

-- `Preflight` returns no error only if it asked AO two things, the session that is expected and then
-- its conversation, and AO answered each with status 200: the first with the session, with all of
-- its identity, alive, for this task alone; the second with the conversation, ready with the model
-- and the effort.
pub preflight-Prepared :
    (s : Server) (x : SessionExpectation) (t : Trace) → Prepared s x t (preflight s x t)
unfolding preflight
preflight-Prepared s x t =
    result-intro (Prepared s x t) (s.answer t (session_request s x)) (λ y _. tt)
      (λ a e. preflight_session-Prepared s x t a e)
