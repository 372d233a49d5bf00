-- ===== src/Recovery/Linked/Deliveries.antt =====
-- cmd/recovery/main.go and internal/recovery: how many messages go to AO over a task's life.
use agents_coworkers.Prelude.{
  ℕ, zero, suc, ◌≤◌, ◌≡◌, refl, ◌∙◌, Bool, true, false, ◌||◌, not, String, ◌==◌, Option, none, some,
  List, [], ◌∷◌, nat_eq, if◌then◌else◌, if-intro, option-intro, arith,
}
use agents_coworkers.Prelude.Int.{pos_part}
use agents_coworkers.Recovery.Errors.{Result, ok, err, result-intro}
use agents_coworkers.Recovery.Checkpoint.{Checkpoint, validate}
use agents_coworkers.Recovery.World.{
  loaded, saved, save_failed, lease_asked, lease_released, artifact_read, DeliveryReceipt, observed,
  preflighted, sent, not_accepted, recovered, stop_sent, History, World, SessionExpectation,
  Observation,
}
use agents_coworkers.Recovery.Protocol.{sends}
use agents_coworkers.Recovery.Protocol.Lives.{Life, Life-sends_bounded}
use agents_coworkers.Recovery.Client.{
  SteerOrSendRequest, ConversationSnapshot, get, post, Trace, Server, is_accepted, is_success,
}
use agents_coworkers.Recovery.Client.Conversation.{
  is_sole, did_not_advance, pages, observe_session, observe, live_turn_ids, interrupt, stop_live,
  stop_observed, stop,
}
use agents_coworkers.Recovery.Client.Delivery.{steer_or_send, send, recover_only}
use agents_coworkers.Recovery.Client.Session.{
  read_settings, preflight_session, preflight, check_session,
}
use agents_coworkers.Recovery.Linked.{exchange, requests, linked, LinkedLife, messages}

-- `t'` is `t` with requests before it that only read.
pub data OnlyReads (t : Trace) : Trace → Type 0 where
  same_requests : OnlyReads t t
  one_read : {t' : Trace} {path : String} → OnlyReads t t' → OnlyReads t (get path ∷ t')

reads_lem : (m : String → Bool) (t t' : Trace) → OnlyReads t t' → messages m t' ≡ messages m t
reads_lem m t _ same_requests = refl
reads_lem m t (get p ∷ u) (one_read r) = reads_lem m t u r

-- The requests of a call.
abbrev Quiet : {R : Type 0} → Trace → R × Trace → Type 0
Quiet t x = OnlyReads t (x.1)

module _ (s : Server) where
  module _ {A R : Type 0} (found : ConversationSnapshot → Option R)
      (add : A → ConversationSnapshot → A) (last : A → R) where
    pages-Quiet :
        (n : ℕ) (id : String) (acc : A) (before : ℕ) (t u : Trace)
        → OnlyReads t u
        → Quiet t (pages s found add last n id acc before u)
    unfolding pages
    pages-Quiet zero id acc before t u q = q
    pages-Quiet (suc n) id acc before t u q =
        result-intro (Quiet t) (s.answer u _) (λ x _. one_read q)
          λ a _.
            if-intro (Quiet t) (not (nat_eq (a.0) 200)) (λ _. one_read q)
              λ _.
                option-intro (Quiet t) (s.decode_snapshot (a.1)) (λ _. one_read q)
                  λ p _.
                    option-intro (Quiet t) (found p)
                      (λ _.
                        if-intro (Quiet t) (not p.has_more_before) (λ _. one_read q)
                          λ _.
                            if-intro (Quiet t) (did_not_advance s found add last p before)
                              (λ _. one_read q)
                              (λ _. pages-Quiet n id (add acc p) _ t _ (one_read q)))
                      (λ r _. one_read q)

  observe-Quiet : (id turn : String) (t : Trace) → Quiet t (observe s id turn t)
  unfolding observe observe_session
  observe-Quiet id turn t =
      result-intro (Quiet t) (s.answer t _) (λ x _. one_read same_requests)
        λ a _.
          if-intro (Quiet t) (nat_eq (a.0) 404) (λ _. one_read same_requests)
            λ _.
              if-intro (Quiet t) (not (nat_eq (a.0) 200)) (λ _. one_read same_requests)
                λ _.
                  if-intro (Quiet t) (turn == "") (λ _. one_read same_requests)
                    (λ _. pages-Quiet _ _ _ 1000 id tt 0 t _ (one_read same_requests))

  live-Quiet : (id : String) (t u : Trace) → OnlyReads t u → Quiet t (live_turn_ids s id u)
  unfolding live_turn_ids
  live-Quiet id t u q = pages-Quiet _ _ _ 1000 id [] 0 t u q

  preflight-Quiet : (x : SessionExpectation) (t : Trace) → Quiet t (preflight s x t)
  unfolding preflight preflight_session read_settings
  preflight-Quiet x t =
      result-intro (Quiet t) (s.answer t _) (λ y _. one_read same_requests)
        λ a _.
          if-intro (Quiet t) (not (nat_eq (a.0) 200)) (λ _. one_read same_requests)
            λ _.
              option-intro (Quiet t) (s.decode_session (a.1)) (λ _. one_read same_requests)
                λ v _.
                  option-intro (Quiet t) (check_session x v)
                    (λ _.
                      result-intro (Quiet t) (s.answer _ _)
                        (λ y _. one_read (one_read same_requests))
                        (λ b _. one_read (one_read same_requests)))
                    (λ y _. one_read same_requests)

-- How AO reads the bodies that the client sends: a delivery that is no recovery is a message, and the
-- body of an interrupt is none.
pub record ReadsBodies (s : Server) (m : String → Bool) : Type 0 where
  pub payloads :
      (p : SteerOrSendRequest) (body : String)
      → s.encode_payload p ≡ some body
      → m body ≡ not p.recover_only
  pub interrupts : m "{}" ≡ false

module _ (s : Server) (m : String → Bool) (k : ReadsBodies s m) where
  -- No message has been added.
  abbrev Silent : {R : Type 0} → Trace → R × Trace → Type 0
  Silent t x = messages m (x.1) ≡ messages m t

  interrupt-Silent :
      (id : String) (t u : Trace) → messages m u ≡ messages m t → Silent t (interrupt s id u)
  unfolding interrupt
  interrupt-Silent id t u q =
      let quiet : (p : String) → messages m (post p "{}" ∷ u) ≡ messages m t =
        λ p. rw k.interrupts q in
      result-intro (Silent t) (s.answer u _) (λ x _. quiet "")
        (λ a _. if-intro (Silent t) (not (is_success (a.0))) (λ _. quiet "") (λ _. quiet ""))

  stop_live-Silent :
      (id turn : String) (t : Trace) (r : Result (List String) × Trace)
      → messages m (r.1) ≡ messages m t
      → Silent t (stop_live s id turn r)
  unfolding stop_live
  stop_live-Silent id turn t (err x, u) q = q
  stop_live-Silent id turn t (ok ids, u) q =
      if-intro (Silent t) (not (is_sole ids turn)) (λ _. q) (λ _. interrupt-Silent id t u q)

  stop_observed-Silent :
      (id turn : String) (t : Trace) (r : Result Observation × Trace)
      → messages m (r.1) ≡ messages m t
      → Silent t (stop_observed s id turn r)
  unfolding stop_observed
  stop_observed-Silent id turn t (err x, u) q = q
  stop_observed-Silent id turn t (ok o, u) q =
      if-intro (Silent t) (not o.session_exists || not (is_accepted o.delivery)) (λ _. q)
        λ _.
          stop_live-Silent id turn t (live_turn_ids s id u)
            (reads_lem m u _ (live-Quiet s id u u same_requests) ∙ q)

  stop-Silent : (id turn : String) (t : Trace) → Silent t (stop s id turn t)
  unfolding stop
  stop-Silent id turn t =
      stop_observed-Silent id turn t (observe s id turn t)
        (reads_lem m t _ (observe-Quiet s id turn t))

  added_lem : (b r : Bool) (n : ℕ) → b ≡ not r → (if b then suc n else n) ≤ (if r then n else suc n)
  added_lem true r n e = ground (arith, e)
  added_lem false r n e = ground (arith, e)

  kept_lem : (r : Bool) (n : ℕ) → n ≤ (if r then n else suc n)
  kept_lem true n = omega arith
  kept_lem false n = omega arith

  -- A delivery adds a message at most, and one that only recovers adds none.
  delivery_lem :
      (id : String) (p : SteerOrSendRequest) (b : Bool) (t : Trace)
      → messages m (steer_or_send s id p b t).1
        ≤ (if p.recover_only then messages m t else suc (messages m t))
  unfolding steer_or_send
  delivery_lem id p b t =
      let P : Result DeliveryReceipt × Trace → Type 0 =
        λ x. messages m (x.1) ≤ (if p.recover_only then messages m t else suc (messages m t)) in
      option-intro P (s.encode_payload p) (λ _. kept_lem p.recover_only (messages m t))
        λ body e.
          let added = added_lem (m body) p.recover_only (messages m t) (k.payloads p body e) in
          result-intro P (s.answer t _) (λ x _. added) (λ a _. added)

  requests-le-sends : (h : History) → messages m (requests s h) ≤ sends h
  unfolding requests exchange send recover_only
  requests-le-sends [] = omega arith
  requests-le-sends (observed id turn ∷ h) =
      let quiet = reads_lem m (requests s h) _ (observe-Quiet s id turn (requests s h)) in
      omega (arith, quiet, requests-le-sends h)
  requests-le-sends (preflighted x ∷ h) =
      let quiet = reads_lem m (requests s h) _ (preflight-Quiet s x (requests s h)) in
      omega (arith, quiet, requests-le-sends h)
  requests-le-sends (sent id d text ∷ h) =
      let one =
        delivery_lem id (record { text = text; client_message_id = d; recover_only = false }) false
          (requests s h) in
      omega (arith, one, requests-le-sends h)
  requests-le-sends (recovered id d ∷ h) =
      let none_added =
        delivery_lem id (record { text = ""; client_message_id = d; recover_only = true }) true
          (requests s h) in
      omega (arith, none_added, requests-le-sends h)
  requests-le-sends (stop_sent id turn ∷ h) =
      omega (arith, stop-Silent id turn (requests s h), requests-le-sends h)
  requests-le-sends (not_accepted ∷ h) = requests-le-sends h
  requests-le-sends (loaded ∷ h) = requests-le-sends h
  requests-le-sends (saved c ∷ h) = requests-le-sends h
  requests-le-sends (save_failed c ∷ h) = requests-le-sends h
  requests-le-sends (lease_asked o t ∷ h) = requests-le-sends h
  requests-le-sends (lease_released ∷ h) = requests-le-sends h
  requests-le-sends (artifact_read p ∷ h) = requests-le-sends h

LinkedLife-Life : (s : Server) (d : Checkpoint) (w : World) → LinkedLife s d w → Life d w
LinkedLife-Life s d w LinkedLife.begins = Life.begins
LinkedLife-Life s d w (LinkedLife.steps {w = u} l e) =
    Life.steps (LinkedLife-Life s d u l) (linked s e)
LinkedLife-Life s d w (LinkedLife.cancels {w = u} l e now) =
    Life.cancels (LinkedLife-Life s d u l) (linked s e) now

-- Over the life of a valid task in steps and cancellations by the HTTP client, of all the requests
-- that the client has made of AO at most `retryBudget` carry a message to deliver: all others read,
-- recover or interrupt. AO has to read the client's bodies as they were encoded.
pub LinkedLife-messages_bounded :
    (s : Server) (m : String → Bool) (d : Checkpoint) (w : World)
    → ReadsBodies s m
    → validate d ≡ none
    → LinkedLife s d w
    → messages m (requests s w.trace) ≤ pos_part d.retry_budget
LinkedLife-messages_bounded s m d w k v l =
    let sent_lem = requests-le-sends s m k w.trace in
    let (bound, _) = Life-sends_bounded d w v (LinkedLife-Life s d w l) in
    omega (arith, sent_lem, bound)
