-- ===== src/Recovery/Protocol/Lives.antt =====
-- The life of one task of internal/recovery: steps and cancellations of any processes, and deaths
-- of a process between any two calls, which leave the disk and lose the rest.
use agents_coworkers.Prelude.{ℕ, suc, ◌≤◌, ◌≡◌, refl, ◌∙◌, String, Bool, true, none, [], ◌∷◌, ◌++◌}
use agents_coworkers.Prelude.Int.{pos_part}
use agents_coworkers.Recovery.Checkpoint.{Checkpoint, validate, terminal}
use agents_coworkers.Recovery.World.{History, Environment, World, saved, sent}
use agents_coworkers.Recovery.Dispatcher.{step}
use agents_coworkers.Recovery.Cancellation.{cancel}
use agents_coworkers.Recovery.Protocol.{
  disk_of, sends, refusals, Successor, WriteAhead, Guarded, Safe,
}
use agents_coworkers.Recovery.Protocol.Counting.{
  disk_nonneg, sends-le-attempts, sends-le-budget, sends-le-refusals,
}
use agents_coworkers.Recovery.Protocol.Saves.{validate_counted}
use agents_coworkers.Recovery.Protocol.Steps.{step-Safe}
use agents_coworkers.Recovery.Protocol.Cancels.{cancel-Safe}

-- The worlds that a task reaches from the record `d`. Each call may come from another process, with
-- an environment of its own. In `died`, the process had made the calls `kept` and not `lost`.
pub data Life (d : Checkpoint) : World → Type 0 where
  begins : Life d (record { disk = d; trace = [] })
  steps : {w : World} → Life d w → (e : Environment) → Life d (step e w).world
  cancels : {w : World} → Life d w → (e : Environment) (now : ℕ) → Life d (cancel e now w).world
  died :
      {w : World}
      → Life d w
      → (lost kept : History) → w.trace ≡ lost ++ kept
      → Life d (record { disk = disk_of d kept; trace = kept })

-- Every tail of a guarded history is guarded.
Guarded-tail : (d : Checkpoint) (lost kept : History) → Guarded d (lost ++ kept) → Guarded d kept
Guarded-tail d [] kept g = g
Guarded-tail d (saved c ∷ lost) kept g = Guarded-tail d lost kept g.2
Guarded-tail d (sent s i m ∷ lost) kept g = Guarded-tail d lost kept g.1
Guarded-tail d (_ ∷ lost) kept g = Guarded-tail d lost kept g

pub Life-Safe : (d : Checkpoint) (w : World) → validate d ≡ none → Life d w → Safe d w
Life-Safe d w v begins = record { on_disk = refl; guarded = tt; counted = validate_counted d v }
Life-Safe d w v (steps {w = u} l e) = (step-Safe d e u (Life-Safe d u v l)).safe
Life-Safe d w v (cancels {w = u} l e now) = (cancel-Safe d e now u (Life-Safe d u v l)).safe
Life-Safe d w v (died {w = u} l lost kept p) =
    let g = Guarded-tail d lost kept (rw p at ((Life-Safe d u v l).guarded)) in
    record { on_disk = refl; guarded = g; counted = disk_nonneg d kept (validate_counted d v) g }

-- Over the whole life of a valid task, deaths included, the message goes out at most
-- `retryBudget` times, and the attempts on disk account for every send.
pub Life-sends_bounded :
    (d : Checkpoint) (w : World)
    → validate d ≡ none
    → Life d w
    → (sends w.trace ≤ pos_part d.retry_budget) × (sends w.trace ≤ pos_part w.disk.attempts)
Life-sends_bounded d w v l =
    let s = Life-Safe d w v l in
    (
      sends-le-budget d w.trace (validate_counted d v) s.guarded,
      rw s.on_disk (sends-le-attempts d w.trace (validate_counted d v) s.guarded),
    )

-- Over the whole life of a valid task, deaths included, each send but the first answers to a
-- refusal by AO: the sends are at most one more than the answers of AO to a send that the request was
-- definitely not accepted.
pub Life-sends_once :
    (d : Checkpoint) (w : World)
    → validate d ≡ none
    → Life d w
    → sends w.trace ≤ suc (refusals w.trace)
Life-sends_once d w v l = sends-le-refusals d w.trace (Life-Safe d w v l).guarded

-- In the life of a valid task, whatever was called since, the call just before any send saved a
-- record in DELIVERY_UNCERTAIN that names the session, the delivery and the message that are sent,
-- counts one attempt more than the record before it, which was sendable and within its budget.
pub Life-WriteAhead :
    (d : Checkpoint) (w : World) (later t : History) (session delivery message : String)
    → validate d ≡ none
    → Life d w
    → w.trace ≡ later ++ (sent session delivery message ∷ t)
    → WriteAhead d session delivery message t
Life-WriteAhead d w later t s i m v l p =
    (Guarded-tail d later (sent s i m ∷ t) (rw p at ((Life-Safe d w v l).guarded))).0

-- What stays of a record over a life.
pub record SameTask (d c : Checkpoint) : Type 0 where
  pub task_kept : c.task_id ≡ d.task_id
  pub delivery_kept : c.delivery_id ≡ d.delivery_id
  pub session_kept : c.session_id ≡ d.session_id
  pub action_kept : c.next_action ≡ d.next_action
  pub budget_kept : c.retry_budget ≡ d.retry_budget
  pub final_kept : terminal d ≡ true → terminal c ≡ true

SameTask-next : {r : Bool} (d b c : Checkpoint) → SameTask d b → Successor r b c → SameTask d c
SameTask-next d b c s n = record {
  task_kept = n.task_kept ∙ s.task_kept;
  delivery_kept = n.delivery_kept ∙ s.delivery_kept;
  session_kept = n.session_kept ∙ s.session_kept;
  action_kept = n.action_kept ∙ s.action_kept;
  budget_kept = n.budget_kept ∙ s.budget_kept;
  final_kept = λ t. n.final_kept (s.final_kept t);
}

Guarded-SameTask : (d : Checkpoint) (t : History) → Guarded d t → SameTask d (disk_of d t)
Guarded-SameTask d [] g = record {
  task_kept = refl;
  delivery_kept = refl;
  session_kept = refl;
  action_kept = refl;
  budget_kept = refl;
  final_kept = λ k. k;
}
Guarded-SameTask d (saved c ∷ t) g = SameTask-next d (disk_of d t) c (Guarded-SameTask d t g.2) g.0
Guarded-SameTask d (sent s i m ∷ t) g = Guarded-SameTask d t g.1
Guarded-SameTask d (_ ∷ t) g = Guarded-SameTask d t g

-- In the life of a valid task, deaths included, the disk keeps the task, the delivery, the session,
-- the message and the budget that the task began with, and a record that was terminal at the
-- beginning stays terminal.
pub Life-SameTask : (d : Checkpoint) (w : World) → validate d ≡ none → Life d w → SameTask d w.disk
Life-SameTask d w v l =
    let s = Life-Safe d w v l in rw s.on_disk (Guarded-SameTask d w.trace s.guarded)
