-- ===== src/Recovery/Client.antt =====
-- internal/recovery/ao_http.go: the AO adapter. An HTTP exchange and the JSON codec are parameters;
-- an exchange answers with a status and a body, or fails, as a function of the requests made so
-- far. A call returns its result with the requests made, newest first.
pub mod Conversation
pub mod Delivery
pub mod Session
pub mod Browsing
pub mod Turns
pub mod Observing
pub mod Stopping
pub mod Sending
pub mod Readiness
use Prim.Native.String.{◌++◌ as ◌<>◌}
use agents_coworkers.Prelude.{
  ℕ, zero, suc, Bool, true, false, ◌&&◌, ◌||◌, not, String, ◌==◌, Option, none, some, List, [], ◌∷◌,
  ◌++◌, if◌then◌else◌, ltb, leb, nat_eq, is_nil,
}
use agents_coworkers.Prelude.Int.{ℤ, is_pos, pos_part}
use agents_coworkers.Prelude.Text.{
  codes, trim, lower, same_codes, strip_prefix, trim_prefix, split_on,
}
use agents_coworkers.Recovery.Errors.{
  Error, other, request_not_accepted, session_owner_mismatch, session_not_idle,
  session_contaminated, Result, ok, err,
}
use agents_coworkers.Recovery.World.{
  DeliveryState, TaskReceipt, Observation, SessionExpectation, DeliveryReceipt,
}

pub record SteerOrSendRequest : Type 0 where
  pub text : String
  pub client_message_id : String
  pub recover_only : Bool

pub record SteerOrSendResponse : Type 0 where
  pub outcome : String
  pub turn_id : String
  pub provider_turn_id : String
  pub state : String

pub record Turn : Type 0 where
  pub id : String
  pub provider_turn_id : String
  pub state : String

pub record Message : Type 0 where
  pub turn_id : String
  pub role : String
  pub text : String

pub record ConversationSnapshot : Type 0 where
  pub controller : String
  pub oldest_sequence : ℤ
  pub has_more_before : Bool
  pub model : String
  pub reasoning_effort : String
  pub turns : List Turn
  pub messages : List Message

pub record SessionView : Type 0 where
  pub id : String
  pub project_id : String
  pub kind : String
  pub harness : String
  pub model : String
  pub branch : String
  pub is_terminated : Bool

pub data Request : Type 0 where
  get : String → Request
  post : String → String → Request

abbrev pub Trace : Type 0
Trace = List Request

-- The functions of `net/http`, `net/url`, `encoding/json` and `fmt` that the client calls.
pub record Server : Type 0 where
  pub answer : Trace → Request → Result (ℕ × String)
  pub path_escape : String → String
  pub decimal : ℕ → String
  pub encode_payload : SteerOrSendRequest → Option String
  pub decode_response : String → Option SteerOrSendResponse
  pub decode_session : String → Option SessionView
  pub decode_snapshot : String → Option ConversationSnapshot
  pub decode_receipt : List ℕ → Option TaskReceipt

-- `mapTurnState`
unfoldable pub map_turn_state : String → DeliveryState
map_turn_state state =
    let word = lower (trim (codes state)) in
    if same_codes word (codes "queued")
      || same_codes word (codes "running")
      || same_codes word (codes "recovered")
    then DeliveryState.accepted
    else if same_codes word (codes "completed")
    then DeliveryState.completed
    else if same_codes word (codes "failed")
    then DeliveryState.rejected
    else if same_codes word (codes "cancelled") || same_codes word (codes "interrupted")
    then DeliveryState.stopped
    else DeliveryState.not_found

abbrev pub is_accepted : DeliveryState → Bool
is_accepted DeliveryState.accepted = true
is_accepted _ = false

abbrev pub is_completed : DeliveryState → Bool
is_completed DeliveryState.completed = true
is_completed _ = false

abbrev pub is_lost : DeliveryState → Bool
is_lost DeliveryState.not_found = true
is_lost DeliveryState.rejected = true
is_lost _ = false

abbrev pub is_success : ℕ → Bool
is_success status = leb 200 status && ltb status 300

module _ (s : Server) where
  abbrev pub receipt_of_line : List ℕ → Option TaskReceipt
  receipt_of_line line = elim (strip_prefix (codes "TASK_RECEIPT ") (trim line)) [
    | none ↦ none
    | some rest ↦ s.decode_receipt rest
  ]

  abbrev pub or_else : Option TaskReceipt → Option TaskReceipt → Option TaskReceipt
  or_else (some r) o = some r
  or_else none o = o

  -- The first line of a message that decodes.
  unfoldable pub receipt_of_lines : List (List ℕ) → Option TaskReceipt
  receipt_of_lines [] = none
  receipt_of_lines (l ∷ ls) = or_else (receipt_of_line l) (receipt_of_lines ls)

  abbrev pub receipt_of_message : String → Message → Option TaskReceipt
  receipt_of_message turn_id m =
      if not (m.turn_id == turn_id) || not (m.role == "assistant")
      then none
      else receipt_of_lines (split_on 10 (codes m.text))

  -- `receiptForTurn`: the loop runs from the last message to the first.
  unfoldable pub receipt_for_turn : List Message → String → Option TaskReceipt
  receipt_for_turn [] turn_id = none
  receipt_for_turn (m ∷ ms) turn_id =
      or_else (receipt_for_turn ms turn_id) (receipt_of_message turn_id m)

  abbrev pub session_path : String → String
  session_path session_id = "/api/v1/sessions/" <> s.path_escape session_id
