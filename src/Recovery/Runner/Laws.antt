-- ===== src/Recovery/Runner/Laws.antt =====
-- What `Runner.Run` of internal/recovery/runner.go returns, and that it returns.
use agents_coworkers.Prelude.{
  ℕ, suc, zero, ◌+◌, ◌≤◌, ◌<◌, ◌≡◌, refl, ◌≢◌, inl, inr, true, Option, none, some, arith, if-intro,
  subst, sym, Option-cases, ltb, ◌&&◌,
}
use agents_coworkers.Recovery.Errors.{Error}
use agents_coworkers.Recovery.Checkpoint.{Checkpoint, terminal, no_checkpoint}
use agents_coworkers.Recovery.World.{History, Environment, World}
use agents_coworkers.Recovery.Dispatcher.{step}
use agents_coworkers.Recovery.Endings.{Outcome}
use agents_coworkers.Recovery.Protocol.Lives.{Life, steps}
use agents_coworkers.Recovery.Runner.{
  Context, Run, ask, sleep, retry_wait, hopeless, polled, wait, remember, finished, Round, returns,
  continues, after_wait, after_step, round, loop, run, is_waiting_or_delivered,
}

-- A predicate on the outcome of a round, or on the runner that goes on.
abbrev Ends : (Outcome → Type 0) → (Run → Type 0) → Round → Type 0
Ends P Q (returns o) = P o
Ends P Q (continues r) = Q r

-- An error, or a terminal record.
abbrev pub IsFinal : Outcome → Type 0
IsFinal o = o.error ≡ none → terminal o.cp ≡ true

-- Waits ask the context, and move nothing else.
abbrev Waited : Run → Option Error × Run → Type 0
Waited r (x, v) = (v.world ≡ r.world) × (r.asked ≤ v.asked)

sleep-Waited : (k : Context) (d : ℕ) (r : Run) → Waited r (sleep k d r)
unfolding sleep
sleep-Waited k d r = (refl, omega arith)

polled-Waited : (k : Context) (o : Outcome) (r : Run) → Waited r (polled k o r)
polled-Waited k o r =
    if-intro (Waited r) (ltb 0 k.poll_interval && is_waiting_or_delivered o.cp.state)
      (λ _. sleep-Waited k k.poll_interval r) (λ _. (refl, omega arith))

wait-Waited : (k : Context) (o : Outcome) (r : Run) → Waited r (wait k o r)
unfolding wait
wait-Waited k o r = elim (Option-cases (retry_wait k o.cp r)) [
  | inr (d, p) ↦ rw (p, wait) (sleep-Waited k d r)
  | inl p ↦ elim (Option-cases (hopeless o)) [
    | inr (x, q) ↦ rw (p, q, wait) (refl, omega arith)
    | inl q ↦ rw (p, q, wait) (polled-Waited k o r)
  ]
]

-- The frame of a round: it steps once, unless the context is done, and asks the context.
module _ (P : Outcome → Type 0) (Q : Run → Type 0) (k : Context) (e : Environment) where
  after_wait_rule :
      (r : Run) (x : Option Error) (v : Run)
      → Waited r (x, v)
      → ((x : Error) (v : Run) → v.world ≡ r.world → P (finished v.last (some x) v))
      → ((v : Run) → v.world ≡ r.world → r.asked ≤ v.asked → Q v)
      → Ends P Q (after_wait (x, v))
  unfolding after_wait
  after_wait_rule r (some x) v w f g = f x v w.0
  after_wait_rule r none v w f g = g v w.0 w.1

  after_step_rule :
      (o : Outcome) (r : Run)
      → o.world ≡ r.world
      → (terminal o.cp ≡ true → P (finished o.cp none r))
      → ((x : Error) (v : Run) → v.world ≡ r.world → P (finished v.last (some x) v))
      → ((v : Run) → v.world ≡ r.world → r.asked < v.asked → Q v)
      → Ends P Q (after_step k o r)
  unfolding after_step
  after_step_rule o r p t f g = if-intro (Ends P Q) (terminal o.cp) t λ _.
      elim (Option-cases (k.error r.asked r.world.trace)) [
        | inr (x, q) ↦ rw (q, after_step) (f x (ask r) refl)
        | inl q ↦
            rw (q, after_step)
              (after_wait_rule (ask r) (wait k o (ask r)).0 (wait k o (ask r)).1
                (wait-Waited k o (ask r)) f g)
      ]

  round_rule :
      (r : Run)
      → ((x : Error) → P (finished r.last (some x) (ask r)))
      → (terminal (step e r.world).cp ≡ true
          → P (finished (step e r.world).cp none (remember (step e r.world) (ask r))))
      → ((x : Error) (v : Run) → v.world ≡ (step e r.world).world → P (finished v.last (some x) v))
      → ((v : Run) → v.world ≡ (step e r.world).world → r.asked < v.asked → Q v)
      → Ends P Q (round k e r)
  unfolding round
  round_rule r c t f g = elim (Option-cases (k.error r.asked r.world.trace)) [
    | inr (x, q) ↦ rw (q, round) (c x)
    | inl q ↦
        rw (q, round)
          (after_step_rule (step e r.world) (remember (step e r.world) (ask r)) refl t f
            λ v p l. g v p (omega arith))
  ]

-- What holds of every outcome at which the loop stops, if each round keeps `Q`.
module _ (P : Outcome → Type 0) (Q : Run → Type 0) (k : Context) (e : Environment)
    (body : (r : Run) → Q r → Ends P Q (round k e r)) where
  ends_rule :
      (f : ℕ) (u : Round) (o : Outcome)
      → Ends P Q u
      → ((r : Run) → Q r → loop f k e r ≡ some o → P o)
      → (elim u [ returns q ↦ some q | continues r ↦ loop f k e r ]) ≡ some o
      → P o
  ends_rule f (returns q) o h g p = let same : q ≡ o = cc in subst P same h
  ends_rule f (continues r) o h g p = g r h p

  loop_rule : (f : ℕ) (r : Run) (o : Outcome) → Q r → loop f k e r ≡ some o → P o
  unfolding loop
  loop_rule zero r o q p = cc
  loop_rule (suc f) r o q p =
      ends_rule f (round k e r) o (body r q) (λ v h g. loop_rule f v o h g) p

-- When the runner returns no error, the record that it returns is terminal; and the world that it
-- leaves continues the life of the task, however many rounds there were.
pub run-IsFinal :
    (f : ℕ) (k : Context) (e : Environment) (d : Checkpoint) (w : World) (o : Outcome)
    → Life d w
    → run f k (some e) w ≡ some o
    → (o.error ≡ none → terminal o.cp ≡ true) × Life d o.world
unfolding run
run-IsFinal f k e d w o l p =
    loop_rule (λ q. IsFinal q × Life d q.world) (λ r. Life d r.world) k e
      (λ r q.
        round_rule (λ o. IsFinal o × Life d o.world) (λ r. Life d r.world) k e r (λ x. (λ z. cc, q))
          (λ t. (λ z. t, steps q e)) (λ x v h. (λ z. cc, subst (Life d) (sym h) (steps q e)))
          (λ v h n. subst (Life d) (sym h) (steps q e)))
      f (record { asked = 0; last = no_checkpoint; world = w }) o l p

-- A context that is done for good once it has been asked `n` times.
abbrev pub DoneAfter : ℕ → Context → Type 0
DoneAfter n k = (i : ℕ) (h : History) → n ≤ i → k.error i h ≢ none

Ends-total :
    (Q : Run → Type 0) (u : Round) (g : Run → Option Outcome)
    → Ends (λ o. Unit {0}) Q u
    → ((r : Run) → Q r → g r ≢ none)
    → (elim u [ returns q ↦ some q | continues r ↦ g r ]) ≢ none
Ends-total Q (returns q) g h t p = cc
Ends-total Q (continues r) g h t p = t r h p

-- A round whose context is done is the last.
done_round :
    (k : Context) (e : Environment) (r : Run)
    → k.error r.asked r.world.trace ≢ none
    → Ends (λ o. Unit {0}) (λ v. ⊥) (round k e r)
unfolding round
done_round k e r h = elim (Option-cases (k.error r.asked r.world.trace)) [
  | inr (x, q) ↦ rw (q, round) tt
  | inl q ↦ absurd (h q)
]

loop_total :
    (f n : ℕ) (k : Context) (e : Environment) (r : Run)
    → DoneAfter n k
    → n ≤ r.asked + f
    → loop (suc f) k e r ≢ none
unfolding loop
loop_total zero n k e r h m =
    Ends-total (λ v. ⊥) (round k e r) (loop zero k e)
      (done_round k e r (h r.asked r.world.trace (omega arith))) (λ v b. absurd b)
loop_total (suc f) n k e r h m =
    Ends-total (λ v. n ≤ v.asked + f) (round k e r) (loop (suc f) k e)
      (round_rule (λ o. Unit {0}) (λ v. n ≤ v.asked + f) k e r (λ x. tt) (λ t. tt) (λ x v q. tt)
        (λ v q l. omega arith))
      (λ v q. loop_total f n k e v h q)

-- A runner whose context is done for good once it has been asked `n` times returns within `n + 1`
-- rounds, whatever the dispatcher's environment answers.
pub run_total :
    (n : ℕ) (k : Context) (e : Environment) (w : World)
    → DoneAfter n k
    → (o : Outcome) × (run (suc n) k (some e) w ≡ some o)
unfolding run
run_total n k e w h =
    some_of _
      (loop_total n n k e (record { asked = 0; last = no_checkpoint; world = w }) h (omega arith))
  where
    some_of : (q : Option Outcome) → q ≢ none → (o : Outcome) × (q ≡ some o)
    some_of none m = absurd (m refl)
    some_of (some o) m = (o, refl)
