-- ===== src/Recovery/Command/Codes.antt =====
-- What the exit codes of cmd/recovery/main.go say of the task.
use agents_coworkers.Prelude.{
  ℕ, suc, zero, ◌+◌, ◌≤◌, ◌≡◌, refl, ◌≢◌, inl, inr, ◌⊎◌, true, Option, none, some, arith,
  Option-cases, subst,
}
use agents_coworkers.Recovery.Checkpoint.{Checkpoint, completed, is_settled}
use agents_coworkers.Recovery.World.{History, Environment, World}
use agents_coworkers.Recovery.Dispatcher.{step}
use agents_coworkers.Recovery.Endings.{Outcome}
use agents_coworkers.Recovery.Protocol.Lives.{Life, steps}
use agents_coworkers.Recovery.Command.{
  ExitCode, exit_success, exit_terminal_err, exit_timeout, Signals, Exit, is_failed, judge,
  supervise,
}

-- What a step that ended the loop with a code must have returned.
abbrev pub Justifies : ExitCode → Checkpoint → Type 0
Justifies exit_success c = (c.state ≡ completed) ⊎ (is_settled c.side_effect ≡ true)
Justifies exit_terminal_err c = is_failed c.state ≡ true
Justifies _ c = Unit

judge-Justifies :
    (k : Signals) (n : ℕ) (o : Outcome) (x : ExitCode) → judge k n o ≡ some x → Justifies x o.cp
unfolding judge
judge-Justifies k n o exit_success h = ground arith
judge-Justifies k n o exit_terminal_err h = ground arith
judge-Justifies k n o _ h = tt

-- The last step of a supervised run, in a life of the task.
pub record Verdict (d : Checkpoint) (e : Environment) (x : Exit) : Type 0 where
  pub alive : Life d x.world
  pub justified :
      (x.code ≡ exit_timeout)
      ⊎ ((w : World) × Life d w × (x.world ≡ (step e w).world) × Justifies x.code (step e w).cp)

judged :
    (k : Signals) (n : ℕ) (d : Checkpoint) (e : Environment) (w : World) (c : ExitCode)
    → Life d w
    → judge k n (step e w) ≡ some c
    → Verdict d e (record { code = c; world = (step e w).world })
judged k n d e w c l h = record {
  alive = steps l e;
  justified = inr (w, l, refl, judge-Justifies k n (step e w) c h);
}

-- The verdict of a loop that has stopped.
record Judged (d : Checkpoint) (e : Environment) (r : Option Exit) : Type 0 where
  at : (x : Exit) → r ≡ some x → Verdict d e x

stopped : (d : Checkpoint) (e : Environment) (x : Exit) → Verdict d e x → Judged d e (some x)
stopped d e x v = record { at = λ y p. let same : x ≡ y = cc in subst (Verdict d e) same v }

supervise-Judged :
    (f : ℕ) (k : Signals) (e : Environment) (n : ℕ) (d : Checkpoint) (w : World)
    → Life d w
    → Judged d e (supervise f k e n w)
unfolding supervise
supervise-Judged zero k e n d w l = record { at = λ x p. cc }
supervise-Judged (suc f) k e n d w l = elim (Option-cases (k.before_step n w.trace)) [
  | inr (y, p) ↦ rw (p, supervise) (stopped d e _ (record { alive = l; justified = inl refl }))
  | inl p ↦ elim (Option-cases (judge k n (step e w))) [
    | inr (c, q) ↦ rw (p, q, supervise) (stopped d e _ (judged k n d e w c l q))
    | inl q ↦ rw (p, q, supervise) (supervise-Judged f k e (suc n) d (step e w).world (steps l e))
  ]
]

-- An exit of the loop is a timeout, or the verdict on the step before it: exit code 0 is given only
-- to a task that the last step returned as completed, or with its side effect completed, and exit
-- code 2 only to one that it returned as blocked, cancelled or cancelled without confirmation. The
-- world that is left continues the life of the task.
pub supervise-Verdict :
    (f : ℕ) (k : Signals) (e : Environment) (n : ℕ) (d : Checkpoint) (w : World) (x : Exit)
    → Life d w
    → supervise f k e n w ≡ some x
    → Verdict d e x
supervise-Verdict f k e n d w x l h = (supervise-Judged f k e n d w l).at x h

-- A command whose context is done for good before its step number `n` exits within `n + 1` rounds,
-- whatever the dispatcher's environment answers.
pub supervise_total :
    (f n : ℕ) (k : Signals) (e : Environment) (i : ℕ) (w : World)
    → ((j : ℕ) (h : History) → n ≤ j → k.before_step j h ≢ none)
    → n ≤ i + f
    → (x : Exit) × (supervise (suc f) k e i w ≡ some x)
unfolding supervise
supervise_total zero n k e i w h m = elim (Option-cases (k.before_step i w.trace)) [
  | inr (y, p) ↦ (record { code = exit_timeout; world = w }, rw (p, supervise))
  | inl p ↦ absurd (h i w.trace (omega arith) p)
]
supervise_total (suc f) n k e i w h m = elim (Option-cases (k.before_step i w.trace)) [
  | inr (y, p) ↦ (record { code = exit_timeout; world = w }, rw (p, supervise))
  | inl p ↦ elim (Option-cases (judge k i (step e w))) [
    | inr (c, q) ↦ (record { code = c; world = (step e w).world }, rw (p, q, supervise))
    | inl q ↦
        rw (p, q, supervise) (supervise_total f n k e (suc i) (step e w).world h (omega arith))
  ]
]
