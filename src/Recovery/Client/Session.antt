-- ===== src/Recovery/Client/Session.antt =====
-- internal/recovery/ao_http.go, `Preflight`: the check of the session before a delivery.
use Prim.Native.String.{◌++◌ as ◌<>◌}
use agents_coworkers.Prelude.{
  ℕ, Bool, ◌&&◌, ◌||◌, not, String, ◌==◌, Option, none, some, ◌∷◌, if◌then◌else◌, nat_eq,
}
use agents_coworkers.Recovery.Errors.{
  Error, other, session_owner_mismatch, session_not_idle, ok, err,
}
use agents_coworkers.Recovery.World.{SessionExpectation}
use agents_coworkers.Recovery.Client.{
  ConversationSnapshot, SessionView, get, Trace, Server, session_path,
}

abbrev pub is_incomplete : SessionExpectation → Bool
is_incomplete x =
    x.session_id == ""
    || x.project_id == ""
    || x.kind == ""
    || x.harness == ""
    || x.model == ""
    || x.effort == ""
    || x.branch == ""
    || not x.exclusive

abbrev pub differs : SessionExpectation → SessionView → Bool
differs x v =
    not (v.id == x.session_id)
    || v.is_terminated
    || (not (x.project_id == "") && not (v.project_id == x.project_id))
    || (not (x.kind == "") && not (v.kind == x.kind))
    || (not (x.harness == "") && not (v.harness == x.harness))
    || (not (x.model == "") && not (v.model == x.model))
    || (not (x.branch == "") && not (v.branch == x.branch))

abbrev pub is_partial : SessionView → Bool
is_partial v =
    v.id == ""
    || v.project_id == ""
    || v.kind == ""
    || v.harness == ""
    || v.model == ""
    || v.branch == ""

unfoldable pub check_session : SessionExpectation → SessionView → Option Error
check_session x v =
    if is_incomplete x
    then some session_owner_mismatch
    else if differs x v
    then some session_owner_mismatch
    else if is_partial v
    then some session_owner_mismatch
    else none

unfoldable pub check_conversation : SessionExpectation → ConversationSnapshot → Option Error
check_conversation x p =
    if not (p.controller == "ready")
    then some session_not_idle
    else if p.model == ""
        || p.reasoning_effort == ""
        || not (p.model == x.model)
        || not (p.reasoning_effort == x.effort)
    then some session_owner_mismatch
    else none

module _ (s : Server) where
  abbrev pub judge_conversation : SessionExpectation → ℕ × String → Option Error
  judge_conversation x a =
      if not (nat_eq (a.0) 200)
      then some (other "AO conversation preflight returned an HTTP error")
      else elim (s.decode_snapshot (a.1)) [
        | none ↦ some (other "decode AO conversation snapshot")
        | some p ↦ check_conversation x p
      ]

  unfoldable pub read_settings : SessionExpectation → Trace → Option Error × Trace
  read_settings x t =
      let q = get (session_path s x.session_id <> "/conversation?limit=1") in
      elim (s.answer t q) [ err y ↦ (some y, q ∷ t) | ok a ↦ (judge_conversation x a, q ∷ t) ]

  unfoldable pub preflight_session : SessionExpectation → ℕ × String → Trace → Option Error × Trace
  preflight_session x a t =
      if not (nat_eq (a.0) 200)
      then (some session_owner_mismatch, t)
      else elim (s.decode_session (a.1)) [
        | none ↦ (some (other "decode AO session"), t)
        | some v ↦ elim (check_session x v) [ some y ↦ (some y, t) | none ↦ read_settings x t ]
      ]

  -- `Preflight`
  unfoldable pub preflight : SessionExpectation → Trace → Option Error × Trace
  preflight x t =
      let q = get (session_path s x.session_id) in
      elim (s.answer t q) [ err y ↦ (some y, q ∷ t) | ok a ↦ preflight_session x a (q ∷ t) ]
