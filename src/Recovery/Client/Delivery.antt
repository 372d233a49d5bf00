-- ===== src/Recovery/Client/Delivery.antt =====
-- internal/recovery/ao_http.go, `Send` and `RecoverOnly`: the delivery of a message.
use Prim.Native.String.{◌++◌ as ◌<>◌}
use agents_coworkers.Prelude.{
  ℕ, Bool, true, false, ◌&&◌, ◌||◌, not, String, ◌==◌, none, some, ◌∷◌, if◌then◌else◌, nat_eq,
}
use agents_coworkers.Recovery.Errors.{
  other, request_not_accepted, session_contaminated, Result, ok, err,
}
use agents_coworkers.Recovery.World.{DeliveryState, DeliveryReceipt}
use agents_coworkers.Recovery.Client.{
  SteerOrSendRequest, SteerOrSendResponse, post, Trace, Server, map_turn_state, is_lost,
  session_path, is_success,
}

abbrev pub settled : DeliveryState → DeliveryState
settled d = if is_lost d then DeliveryState.accepted else d

unfoldable pub judge_response : SteerOrSendResponse → Result DeliveryReceipt
judge_response r =
    if r.outcome == "steered"
    then err session_contaminated
    else if not (r.outcome == "sent")
    then err (other "unknown AO delivery outcome")
    else if r.turn_id == ""
    then err (other "AO accepted delivery without a turn handle")
    else ok (record { state = settled (map_turn_state r.state); turn_id = r.turn_id })

module _ (s : Server) where
  unfoldable pub judge_delivery : Bool → ℕ × String → Result DeliveryReceipt
  judge_delivery recovering a =
      if not (is_success (a.0))
      then if not recovering && (nat_eq (a.0) 400 || nat_eq (a.0) 404)
        then err request_not_accepted
        else err (other "AO delivery outcome uncertain")
      else elim (s.decode_response (a.1)) [
        | none ↦ err (other "decode AO delivery response")
        | some r ↦ judge_response r
      ]

  -- `steerOrSend`
  unfoldable pub steer_or_send :
      String → SteerOrSendRequest → Bool → Trace → Result DeliveryReceipt × Trace
  steer_or_send session_id payload recovering t = elim (s.encode_payload payload) [
    | none ↦ (err request_not_accepted, t)
    | some text ↦
        let q = post (session_path s session_id <> "/conversation/steer-or-send") text in
        elim (s.answer t q) [ err x ↦ (err x, q ∷ t) | ok a ↦ (judge_delivery recovering a, q ∷ t) ]
  ]

  -- `Send`
  unfoldable pub send : String → String → String → Trace → Result DeliveryReceipt × Trace
  send session_id delivery_id message t =
      steer_or_send session_id
        (record { text = message; client_message_id = delivery_id; recover_only = false }) false t

  -- `RecoverOnly`
  unfoldable pub recover_only : String → String → Trace → Result DeliveryReceipt × Trace
  recover_only session_id delivery_id t =
      steer_or_send session_id
        (record { text = ""; client_message_id = delivery_id; recover_only = true }) true t
