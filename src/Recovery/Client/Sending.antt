-- ===== src/Recovery/Client/Sending.antt =====
-- internal/recovery/ao_http.go: what the answer to a delivery means. The dispatcher sends again
-- only after a refusal, so these theorems are what its protocol relies on.
use Prim.Native.String.{◌++◌ as ◌<>◌}
use agents_coworkers.Prelude.{
  ℕ, ◌≡◌, ◌≢◌, refl, ◌⊎◌, inl, inr, Bool, true, false, not, ◌&&◌, ◌||◌, String, ◌==◌, eq_iff, none,
  some, ◌∷◌, arith, nat_eq, if-intro, option-intro, Bool-cases, subst, sym,
}
use agents_coworkers.Recovery.Errors.{Error, is_not_accepted, Result, ok, err, result-intro}
use agents_coworkers.Recovery.World.{DeliveryState, DeliveryReceipt}
use agents_coworkers.Recovery.Client.{
  SteerOrSendRequest, SteerOrSendResponse, Request, Trace, Server, is_lost, is_success,
  map_turn_state, post,
}
use agents_coworkers.Recovery.Client.Delivery.{
  settled, judge_response, judge_delivery, steer_or_send, send, recover_only,
}

-- The error of an HTTP exchange that failed is none of this package's, so its outcome is unknown.
abbrev pub FailsForeign : Server → Type 0
FailsForeign s =
    (t : Trace) (q : Request) (x : Error) → s.answer t q ≡ err x → is_not_accepted x ≡ false

-- The request that delivers to a session: the encoded payload, posted at the session's path.
abbrev pub Delivers : Server → String → SteerOrSendRequest → Request → Type 0
Delivers s id payload q =
    (text : String) × (s.encode_payload payload ≡ some text)
    × (q ≡ post (("/api/v1/sessions/" <> s.path_escape id) <> "/conversation/steer-or-send") text)

-- The state of a receipt: AO's, or accepted where AO's says that there is no such turn or that it
-- failed.
abbrev pub StateOf : DeliveryState → String → Type 0
StateOf d word =
    (d ≡ map_turn_state word)
    ⊎ ((is_lost (map_turn_state word) ≡ true) × (d ≡ DeliveryState.accepted))

-- AO answered the delivery of this payload to this session: it was sent as the receipt's turn.
pub record Confirmed (s : Server) (id : String) (payload : SteerOrSendRequest) (t t' : Trace)
    (d : DeliveryReceipt) : Type 0 where
  pub request : Request
  pub delivers : Delivers s id payload request
  pub only_request : t' ≡ request ∷ t
  pub status : ℕ
  pub body : String
  pub response : SteerOrSendResponse
  pub answered : s.answer t request ≡ ok (status, body)
  pub success : is_success status ≡ true
  pub decoded : s.decode_response body ≡ some response
  pub outcome_sent : response.outcome ≡ "sent"
  pub turn_of : d.turn_id ≡ response.turn_id
  pub turn_named : d.turn_id ≢ ""
  pub not_lost : is_lost d.state ≡ false
  pub state_of : StateOf d.state response.state

-- The payload could not be encoded, and no request was made; or a first delivery was refused by
-- AO's answer to its request.
abbrev pub Refused : Server → String → SteerOrSendRequest → Bool → Trace → Trace → Type 0
Refused s id payload recovering t t' =
    ((s.encode_payload payload ≡ none) × (t' ≡ t))
    ⊎ ((recovering ≡ false)
        × (q : Request) × Delivers s id payload q
        × (t' ≡ q ∷ t)
        × (a : ℕ × String) × (s.answer t q ≡ ok a)
        × ((nat_eq (a.0) 400 || nat_eq (a.0) 404) ≡ true))

abbrev pub Classified :
    Server → String → SteerOrSendRequest → Bool → Trace → Result DeliveryReceipt × Trace → Type 0
Classified s id payload recovering t (ok d, t') = Confirmed s id payload t t' d
Classified s id payload recovering t (err x, t') =
    is_not_accepted x ≡ true → Refused s id payload recovering t t'

-- The same of the judgement of an answer.
abbrev Judged :
    Server
    → String
    → SteerOrSendRequest
    → Bool
    → Trace
    → Request
    → ℕ × String
    → Result DeliveryReceipt
    → Type 0
Judged s id payload recovering t q a (ok d) = Confirmed s id payload t (q ∷ t) d
Judged s id payload recovering t q a (err x) =
    is_not_accepted x ≡ true
    → (recovering ≡ false) × ((nat_eq (a.0) 400 || nat_eq (a.0) 404) ≡ true)

not_empty : (x : String) → (x == "") ≡ false → x ≢ ""
not_empty x h p = absurd (cc ((eq_iff x "").1 p))

settled-StateOf : (r : String) → StateOf (settled (map_turn_state r)) r
settled-StateOf r =
    if-intro (λ d. StateOf d r) (is_lost (map_turn_state r)) (λ l. inr (l, refl)) (λ _. inl refl)

settled_lem : (r : String) → is_lost (settled (map_turn_state r)) ≡ false
settled_lem r = if-intro (λ d. is_lost d ≡ false) (is_lost (map_turn_state r)) (λ _. refl) (λ h. h)

judge_response-Judged :
    (s : Server) (id : String) (payload : SteerOrSendRequest) (recovering : Bool) (t : Trace)
    (q : Request) (a : ℕ × String) (r : SteerOrSendResponse)
    → Delivers s id payload q
    → s.answer t q ≡ ok a
    → is_success (a.0) ≡ true
    → s.decode_response (a.1) ≡ some r
    → Judged s id payload recovering t q a (judge_response r)
unfolding judge_response
judge_response-Judged s id payload recovering t q a r v e h d =
    if-intro (Judged s id payload recovering t q a) (r.outcome == "steered") (λ _ n. absurd (cc))
      λ _.
        if-intro (Judged s id payload recovering t q a) (not (r.outcome == "sent"))
          (λ _ n. absurd (cc))
          λ o.
            if-intro (Judged s id payload recovering t q a) (r.turn_id == "") (λ _ n. absurd (cc))
              λ n. record {
                request = q;
                delivers = v;
                only_request = refl;
                status = a.0;
                body = a.1;
                response = r;
                answered = e;
                success = h;
                decoded = d;
                outcome_sent = (eq_iff r.outcome "sent").0 (ground (arith, o));
                turn_of = refl;
                turn_named = not_empty r.turn_id n;
                not_lost = settled_lem r.state;
                state_of = settled-StateOf r.state;
              }

judge_delivery-Judged :
    (s : Server) (id : String) (payload : SteerOrSendRequest) (recovering : Bool) (t : Trace)
    (q : Request) (a : ℕ × String)
    → Delivers s id payload q
    → s.answer t q ≡ ok a
    → Judged s id payload recovering t q a (judge_delivery s recovering a)
unfolding judge_delivery
judge_delivery-Judged s id payload recovering t q a v e =
    if-intro (Judged s id payload recovering t q a) (not (is_success (a.0)))
      (λ _.
        if-intro (Judged s id payload recovering t q a)
          (not recovering && (nat_eq (a.0) 400 || nat_eq (a.0) 404))
          (λ h _. (ground (arith, h), ground (arith, h))) (λ _ n. absurd (cc)))
      λ h.
        option-intro (Judged s id payload recovering t q a) (s.decode_response (a.1))
          (λ _ n. absurd (cc))
          (λ r d. judge_response-Judged s id payload recovering t q a r v e (ground (arith, h)) d)

steer_or_send-Classified :
    (s : Server) (id : String) (payload : SteerOrSendRequest) (recovering : Bool) (t : Trace)
    → FailsForeign s
    → Classified s id payload recovering t (steer_or_send s id payload recovering t)
unfolding steer_or_send
steer_or_send-Classified s id payload recovering t f =
    option-intro (Classified s id payload recovering t) (s.encode_payload payload)
      (λ e _. inl (e, refl))
      λ text z.
        result-intro (Classified s id payload recovering t) (s.answer t _)
          (λ x e n. absurd (cc (f t _ x e)))
          λ a e.
            classify a _ (judge_delivery s recovering a) (text, z, refl) e
              (judge_delivery-Judged s id payload recovering t _ a (text, z, refl) e)
  where
    classify :
        (a : ℕ × String) (q : Request) (r : Result DeliveryReceipt)
        → Delivers s id payload q
        → s.answer t q ≡ ok a
        → Judged s id payload recovering t q a r
        → Classified s id payload recovering t (r, q ∷ t)
    classify a q (ok d) v e j = j
    classify a q (err x) v e j = λ n. let (b, c) = j n in inr (b, q, v, refl, a, e, c)

-- Provided that a failed exchange has no error of this package: a receipt of `Send` is AO's word, in
-- its answer with a status of success to the one request that was made, which posts this message at
-- this session's path, that it sent the message as the receipt's turn, which has a name and is
-- neither lost nor failed; and `Send` says that the request was not accepted only if the message could
-- not be encoded and no request was made, or AO answered that one request with status 400 or 404.
pub send-Classified :
    (s : Server) (id delivery_id message : String) (t : Trace)
    → FailsForeign s
    → Classified s id
        (record { text = message; client_message_id = delivery_id; recover_only = false })
        false
        t
        (send s id delivery_id message t)
unfolding send
send-Classified s id delivery_id message t f = steer_or_send-Classified s id _ false t f

-- Provided that a failed exchange has no error of this package: `RecoverOnly` never says that the
-- request was not accepted once it could be encoded, whatever AO answers.
pub recover_only_keeps :
    (s : Server) (id delivery_id : String) (t : Trace) (text : String) (x : Error)
    → FailsForeign s
    → s.encode_payload (record { text = ""; client_message_id = delivery_id; recover_only = true })
      ≡ some text
    → (recover_only s id delivery_id t).0 ≡ err x
    → is_not_accepted x ≡ false
unfolding recover_only
recover_only_keeps s id delivery_id t text x f e h =
    keeps (steer_or_send s id _ true t) (steer_or_send-Classified s id _ true t f) h
  where
    keeps :
        (r : Result DeliveryReceipt × Trace)
        → Classified s id
            (record { text = ""; client_message_id = delivery_id; recover_only = true })
            true
            t
            r
        → r.0 ≡ err x
        → is_not_accepted x ≡ false
    keeps (ok d, t') c p = absurd (cc)
    keeps (err y, t') c p = elim (Bool-cases (is_not_accepted x)) [
      | inl n ↦
          let same : y ≡ x = cc in
          elim (c (subst (λ z. is_not_accepted z ≡ true) (sym same) n)) [
            | inl u ↦ absurd (cc (u.0))
            | inr u ↦ absurd (cc (u.0))
          ]
      | inr n ↦ n
    ]
