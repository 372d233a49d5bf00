-- ===== src/Recovery/Protocol/Sending.antt =====
-- `Dispatcher.Step` of internal/recovery/dispatcher.go: the record that is saved ahead of a send arms
-- it, and the send goes out on top of it.
use agents_coworkers.Prelude.{ℕ, Bool, ◌≡◌, refl, inl, true, false, none, ◌∷◌, arith}
use agents_coworkers.Prelude.Int.{int_le}
use agents_coworkers.Recovery.Checkpoint.{Checkpoint, is_settled, terminal, validate}
use agents_coworkers.Recovery.World.{Environment, World, log, saved, sent}
use agents_coworkers.Recovery.Dispatcher.{in_flight}
use agents_coworkers.Recovery.Endings.{is_uncertain, is_delivered}
use agents_coworkers.Recovery.Protocol.{sendable, Successor, Armed, Safe}
use agents_coworkers.Recovery.Protocol.Records.{Bound, Held, Held-increment, Successor-open}
use agents_coworkers.Recovery.Protocol.Saves.{saved-Safe}

-- A record in hand is sendable with the one on disk.
pub Held-sendable : (d c : Checkpoint) → Held d c → sendable c ≡ true → sendable d ≡ true
Held-sendable d c h t = rw (h.state_same, h.side_effect_same) at t

pub in_flight-Armed :
    (e : Environment) (now : ℕ) (d c : Checkpoint)
    → Held d c
    → sendable c ≡ true
    → int_le c.retry_budget c.attempts ≡ false
    → Armed d (in_flight e now c) c.session_id c.delivery_id c.next_action
in_flight-Armed e now d c h t b = record {
  from_sendable = Held-sendable d c h t;
  now_uncertain = refl;
  counted = rw h.attempts_same;
  in_budget = rw (h.attempts_same, h.budget_kept) at b;
  to_session = refl;
  with_delivery = refl;
  with_message = refl;
}

pub in_flight-Successor :
    {r : Bool} (e : Environment) (now : ℕ) (d c : Checkpoint)
    → Held d c
    → terminal d ≡ false
    → Successor r d (in_flight e now c)
in_flight-Successor e now d c h live =
    Successor-open d (in_flight e now c)
      (record {
        attempts_kept = (Held-increment d c h).attempts_kept;
        budget_kept = h.budget_kept;
        task_kept = h.task_kept;
        delivery_kept = h.delivery_kept;
        session_kept = h.session_kept;
        action_kept = h.action_kept;
      })
      live refl

pub self-Bound : (c : Checkpoint) → Bound c c
self-Bound c = record {
  attempts_kept = inl refl;
  budget_kept = refl;
  task_kept = refl;
  delivery_kept = refl;
  session_kept = refl;
  action_kept = refl;
}

-- The send goes out only on top of the record that arms it.
pub sent-Safe :
    (d : Checkpoint) (e : Environment) (now : ℕ) (c : Checkpoint) (w : World)
    → Safe d w
    → Held w.disk c
    → sendable c ≡ true
    → int_le c.retry_budget c.attempts ≡ false
    → terminal w.disk ≡ false
    → validate (in_flight e now c) ≡ none
    → Safe d (
        log
          (sent c.session_id c.delivery_id c.next_action)
          (record { disk = in_flight e now c; trace = saved (in_flight e now c) ∷ w.trace }))
sent-Safe d e now c w s h t b live v =
    let before : Safe d
        (record { disk = in_flight e now c; trace = saved (in_flight e now c) ∷ w.trace }) =
      saved-Safe d _ w s (in_flight-Successor e now w.disk c h live) v in
    record {
      on_disk = refl;
      guarded = (rw s.on_disk at (in_flight-Armed e now w.disk c h t b), before.guarded);
      counted = before.counted;
    }

pub sendable_unsettled : (c : Checkpoint) → sendable c ≡ true → is_settled c.side_effect ≡ false
sendable_unsettled c t = ground arith

pub sendable_of :
    (c : Checkpoint)
    → terminal c ≡ false
    → is_uncertain c.state ≡ false
    → is_delivered c.state ≡ false
    → sendable c ≡ true
sendable_of c t u v = ground arith

-- The record that a step works on differs from the disk in the time of its observation.
pub observed_Held : (d : Checkpoint) (now : ℕ) → Held d (record d { last_observed_utc = now })
observed_Held d now = record {
  attempts_same = refl;
  budget_kept = refl;
  task_kept = refl;
  delivery_kept = refl;
  session_kept = refl;
  action_kept = refl;
  state_same = refl;
  side_effect_same = refl;
}

pub Held-Safe :
    {r : Bool} (d c : Checkpoint) (w : World) → Safe d w → Held w.disk c → Successor r w.disk c
Held-Safe d c w s h = record {
  attempts_kept = inl h.attempts_same;
  budget_kept = h.budget_kept;
  task_kept = h.task_kept;
  delivery_kept = h.delivery_kept;
  session_kept = h.session_kept;
  action_kept = h.action_kept;
  no_relapse = λ k. inl (Held-sendable w.disk c h k);
  final_kept = λ k. rw (h.state_same, h.side_effect_same) k;
}
