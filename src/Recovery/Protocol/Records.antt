-- ===== src/Recovery/Protocol/Records.antt =====
-- The records that internal/recovery/dispatcher.go holds in hand, against the one on disk.
use agents_coworkers.Prelude.{
  ℕ, ◌≡◌, ap, ◌⊎◌, inl, inr, Bool, true, false, ◌||◌, String, Option, arith,
}
use agents_coworkers.Prelude.Int.{increment}
use agents_coworkers.Recovery.Checkpoint.{
  TaskState, SideEffectState, Checkpoint, is_final, terminal,
}
use agents_coworkers.Recovery.Endings.{is_uncertain, is_delivered}
use agents_coworkers.Recovery.Protocol.{sendable, Successor}

-- `c` is `d` up to one counted attempt and the fields that a step sets.
pub record Bound (d c : Checkpoint) : Type 0 where
  pub attempts_kept : (c.attempts ≡ d.attempts) ⊎ (c.attempts ≡ increment d.attempts)
  pub budget_kept : c.retry_budget ≡ d.retry_budget
  pub task_kept : c.task_id ≡ d.task_id
  pub delivery_kept : c.delivery_id ≡ d.delivery_id
  pub session_kept : c.session_id ≡ d.session_id
  pub action_kept : c.next_action ≡ d.next_action

-- The record in hand while the outcome is open: nothing is counted yet.
pub record Held (d c : Checkpoint) : Type 0 where
  pub attempts_same : c.attempts ≡ d.attempts
  pub budget_kept : c.retry_budget ≡ d.retry_budget
  pub task_kept : c.task_id ≡ d.task_id
  pub delivery_kept : c.delivery_id ≡ d.delivery_id
  pub session_kept : c.session_id ≡ d.session_id
  pub action_kept : c.next_action ≡ d.next_action
  pub state_same : c.state ≡ d.state
  pub side_effect_same : c.side_effect ≡ d.side_effect

module _ (d c : Checkpoint) where
  pub Held-Bound : Held d c → Bound d c
  Held-Bound h = record {
    attempts_kept = inl h.attempts_same;
    budget_kept = h.budget_kept;
    task_kept = h.task_kept;
    delivery_kept = h.delivery_kept;
    session_kept = h.session_kept;
    action_kept = h.action_kept;
  }

  pub Held-increment : Held d c → Bound d (record c { attempts = increment c.attempts })
  Held-increment h = record {
    attempts_kept = inr (ap increment h.attempts_same);
    budget_kept = h.budget_kept;
    task_kept = h.task_kept;
    delivery_kept = h.delivery_kept;
    session_kept = h.session_kept;
    action_kept = h.action_kept;
  }

  pub Held-terminal : Held d c → terminal c ≡ false → terminal d ≡ false
  Held-terminal h t = rw (h.state_same, h.side_effect_same) at t

  -- What is not counted may be set at will.
  pub Bound-retag :
      Bound d c
      → (state : TaskState) (side_effect : SideEffectState) (at : Option ℕ) (kind turn : String)
      → Bound d (record c {
        state = state;
        side_effect = side_effect;
        next_retry_at = at;
        last_error_kind = kind;
        ao_turn_id = turn;
      })
  Bound-retag b state side_effect at kind turn = record {
    attempts_kept = b.attempts_kept;
    budget_kept = b.budget_kept;
    task_kept = b.task_kept;
    delivery_kept = b.delivery_kept;
    session_kept = b.session_kept;
    action_kept = b.action_kept;
  }

  Bound-Successor :
      {r : Bool}
      → Bound d c
      → (sendable c ≡ true → (sendable d ≡ true) ⊎ (r ≡ true))
      → (terminal d ≡ true → terminal c ≡ true)
      → Successor r d c
  Bound-Successor b f g = record {
    attempts_kept = b.attempts_kept;
    budget_kept = b.budget_kept;
    task_kept = b.task_kept;
    delivery_kept = b.delivery_kept;
    session_kept = b.session_kept;
    action_kept = b.action_kept;
    no_relapse = f;
    final_kept = g;
  }

  -- A final state may follow any record.
  pub Successor-final : {r : Bool} → Bound d c → is_final c.state ≡ true → Successor r d c
  Successor-final b h =
      Bound-Successor b (λ k. absurd (ground (arith, h, k))) (λ k. ground (arith, h))

  -- While a delivery is open, the next record is not sendable.
  pub Successor-open :
      {r : Bool}
      → Bound d c
      → terminal d ≡ false
      → (is_delivered c.state || is_uncertain c.state) ≡ true
      → Successor r d c
  Successor-open b t h = Bound-Successor b (λ k. absurd (ground (arith, h, k))) (λ k. absurd (cc))

  pub Successor-retry :
      {r : Bool}
      → Bound d c
      → terminal d ≡ false
      → (sendable d ≡ true) ⊎ (r ≡ true)
      → Successor r d c
  Successor-retry b t h = Bound-Successor b (λ k. h) (λ k. absurd (cc))
