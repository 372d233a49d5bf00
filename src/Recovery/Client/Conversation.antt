-- ===== src/Recovery/Client/Conversation.antt =====
-- internal/recovery/ao_http.go, `Observe`, `liveTurnIDs` and `Stop`: the reading of a conversation.
use Prim.Native.String.{◌++◌ as ◌<>◌}
use agents_coworkers.Prelude.{
  ℕ, zero, suc, Bool, true, false, ◌&&◌, ◌||◌, not, String, ◌==◌, Option, none, some, List, [], ◌∷◌,
  ◌++◌, if◌then◌else◌, ltb, leb, nat_eq,
}
use agents_coworkers.Prelude.Int.{is_pos, pos_part}
use agents_coworkers.Prelude.Text.{codes, same_codes, trim_prefix}
use agents_coworkers.Recovery.Errors.{Error, other, session_owner_mismatch, Result, ok, err}
use agents_coworkers.Recovery.World.{DeliveryState, Observation}
use agents_coworkers.Recovery.Client.{
  Turn, ConversationSnapshot, get, post, Trace, Server, map_turn_state, is_accepted, is_completed,
  receipt_for_turn, session_path, is_success,
}

abbrev pub is_sole : List String → String → Bool
is_sole [] turn_id = false
is_sole (id ∷ []) turn_id = id == turn_id
is_sole (id ∷ _ ∷ _) turn_id = false

module _ (s : Server) where
  abbrev pub page_path : String → ℕ → String
  page_path session_id before =
      session_path s session_id
      <> "/conversation?limit=500"
      <> (if ltb 0 before then "&beforeSequence=" <> s.decimal before else "")

  -- The reading of the pages of a conversation from the newest, which `Observe` and `liveTurnIDs`
  -- share: `found` ends it at a page, `add` collects from a page, `last` is the result of the end.
  module _ {A R : Type 0} (found : ConversationSnapshot → Option R)
      (add : A → ConversationSnapshot → A) (last : A → R) where
    abbrev pub did_not_advance : ConversationSnapshot → ℕ → Bool
    did_not_advance p before =
        not (is_pos p.oldest_sequence) || (ltb 0 before && leb before (pos_part p.oldest_sequence))

    -- After a page without a find; `next` reads the page before it.
    abbrev pub turn_page :
        (A → ℕ → Trace → Result R × Trace) → A → ℕ → ConversationSnapshot → Trace → Result R × Trace
    turn_page next acc before p t =
        if not p.has_more_before
        then (ok (last (add acc p)), t)
        else if did_not_advance p before
        then (err (other "AO conversation pagination did not advance"), t)
        else next (add acc p) (pos_part p.oldest_sequence) t

    abbrev pub read_page :
        (A → ℕ → Trace → Result R × Trace) → A → ℕ → ℕ × String → Trace → Result R × Trace
    read_page next acc before a t =
        if not (nat_eq (a.0) 200)
        then (err (other "AO conversation read returned an HTTP error"), t)
        else elim (s.decode_snapshot (a.1)) [
          | none ↦ (err (other "decode AO conversation snapshot"), t)
          | some p ↦ elim (found p) [ some r ↦ (ok r, t) | none ↦ turn_page next acc before p t ]
        ]

    -- `n` bounds the pages that are left.
    unfoldable pub pages : ℕ → String → A → ℕ → Trace → Result R × Trace
    pages zero session_id acc before t =
        (err (other "AO conversation pagination limit exceeded"), t)
    pages (suc n) session_id acc before t =
        let q = get (page_path session_id before) in
        elim (s.answer t q) [
          | err x ↦ (err x, q ∷ t)
          | ok a ↦ read_page (pages n session_id) acc before a (q ∷ t)
        ]

  abbrev pub is_turn : String → Turn → Bool
  is_turn handle u =
      u.id == handle
      || (not (u.provider_turn_id == "")
          && same_codes (codes u.provider_turn_id) (trim_prefix (codes "provider:") (codes handle)))

  abbrev pub no_turn : Bool → Observation
  no_turn exists = record {
    session_exists = exists;
    human_stopped = false;
    delivery = if exists then DeliveryState.not_found else DeliveryState.unknown_delivery "";
    receipt = none;
  }

  abbrev pub turn_seen : ConversationSnapshot → Turn → Observation
  turn_seen p u = record {
    session_exists = true;
    human_stopped = false;
    delivery = map_turn_state u.state;
    receipt =
        if is_completed (map_turn_state u.state) then receipt_for_turn s p.messages u.id else none;
  }

  unfoldable pub search_turn : String → ConversationSnapshot → List Turn → Option Observation
  search_turn handle p [] = none
  search_turn handle p (u ∷ us) =
      let rest = search_turn handle p us in if is_turn handle u then some (turn_seen p u) else rest

  abbrev pub search_page : String → ConversationSnapshot → Option Observation
  search_page handle p = search_turn handle p p.turns

  unfoldable pub observe_session : String → String → ℕ × String → Trace → Result Observation × Trace
  observe_session session_id handle a t =
      if nat_eq (a.0) 404
      then (ok (no_turn false), t)
      else if not (nat_eq (a.0) 200)
      then (err (other "AO session read returned an HTTP error"), t)
      else if handle == ""
      then (ok (no_turn true), t)
      else pages (search_page handle) (λ (u : Unit {0}) p. u) (λ (u : Unit {0}). no_turn true) 1000
          session_id tt 0 t

  -- `Observe`
  unfoldable pub observe : String → String → Trace → Result Observation × Trace
  observe session_id handle t =
      let q = get (session_path s session_id) in
      elim (s.answer t q) [
        | err x ↦ (err x, q ∷ t)
        | ok a ↦ observe_session session_id handle a (q ∷ t)
      ]

  unfoldable pub live_turns : List Turn → List String
  live_turns [] = []
  live_turns (u ∷ us) =
      let rest = live_turns us in if is_accepted (map_turn_state u.state) then u.id ∷ rest else rest

  -- `liveTurnIDs`
  unfoldable pub live_turn_ids : String → Trace → Result (List String) × Trace
  live_turn_ids session_id t =
      pages (λ p. none) (λ (ids : List String) p. ids ++ live_turns p.turns)
        (λ (ids : List String). ids) 1000 session_id [] 0 t

  unfoldable pub interrupt : String → Trace → Option Error × Trace
  interrupt session_id t =
      let q = post (session_path s session_id <> "/conversation/interrupt") "{}" in
      elim (s.answer t q) [
        | err x ↦ (some x, q ∷ t)
        | ok a ↦
            if not (is_success (a.0))
            then (some (other "AO interrupt returned an HTTP error"), q ∷ t)
            else (none, q ∷ t)
      ]

  unfoldable pub stop_live : String → String → Result (List String) × Trace → Option Error × Trace
  stop_live session_id turn_id (err x, t) = (some x, t)
  stop_live session_id turn_id (ok ids, t) =
      if not (is_sole ids turn_id) then (some session_owner_mismatch, t) else interrupt session_id t

  unfoldable pub stop_observed : String → String → Result Observation × Trace → Option Error × Trace
  stop_observed session_id turn_id (err x, t) = (some x, t)
  stop_observed session_id turn_id (ok o, t) =
      if not o.session_exists || not (is_accepted o.delivery)
      then (some session_owner_mismatch, t)
      else stop_live session_id turn_id (live_turn_ids session_id t)

  -- `Stop`
  unfoldable pub stop : String → String → Trace → Option Error × Trace
  stop session_id turn_id t = stop_observed session_id turn_id (observe session_id turn_id t)
