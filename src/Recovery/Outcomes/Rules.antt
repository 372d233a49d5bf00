-- ===== src/Recovery/Outcomes/Rules.antt =====
-- Rules for saves and for the frame of a step, over a predicate on worlds.
use agents_coworkers.Prelude.{
  ◌≡◌, refl, ap, inl, inr, ◌++◌, [], true, Option, none, some, ◌∷◌, if-intro, Option-cases,
}
use agents_coworkers.Recovery.Errors.{Error, Result, ok, err}
use agents_coworkers.Recovery.Checkpoint.{Checkpoint, validate}
use agents_coworkers.Recovery.World.{
  Action, History, Environment, World, log, load, loaded, save, saved, save_failed, lease_released,
}
use agents_coworkers.Recovery.Dispatcher.{
  with_loaded, acquire_loaded, acquire, with_lease, step, step_loaded,
}
use agents_coworkers.Recovery.Endings.{Outcome, finish, finish_with}
use agents_coworkers.Recovery.Protocol.Saves.{save_cases}
use agents_coworkers.Recovery.Outcomes.{is_administrative}

-- The calls since `t`.
abbrev pub Since : History → World → Type 0
Since t v = (new : History) × (v.trace ≡ new ++ t)

-- A predicate on the world that an outcome leaves.
pub record After {ℓ} (Q : World → Type ℓ) (o : Outcome) : Type ℓ where
  pub at : Q o.world

module _ {ℓ} (Q : World → Type ℓ) (e : Environment) (c : Checkpoint) (w : World) where
  pub save_rule :
      Q (log (save_failed c) w)
      → Q (record { disk = c; trace = saved c ∷ w.trace })
      → Q (save e c w).1
  save_rule lost done = save_cases (λ r. Q r.1) e c w (λ x. lost) (λ v. done)

  pub finish_rule :
      Q (log (save_failed c) w)
      → Q (record { disk = c; trace = saved c ∷ w.trace })
      → After Q (finish e c w)
  unfolding finish
  finish_rule lost done = record { at = save_rule lost done }

  pub finish_with_rule :
      (x : Error)
      → Q (log (save_failed c) w)
      → Q (record { disk = c; trace = saved c ∷ w.trace })
      → After Q (finish_with e c x w)
  unfolding finish_with
  finish_with_rule x lost done = record { at = save_rule lost done }

module _ {ℓ} (Q : World → Type ℓ) (e : Environment) (d : Checkpoint) (t : History)
    (admin : (a : Action) (v : World) → is_administrative a ≡ true → Q v → Q (log a v)) where
  -- The predicate, in a world whose disk is the one that the step began with after the calls `t`.
  abbrev Kept : World → Type ℓ
  Kept v = (v.disk ≡ d) × Since t v × Q v

  logged_rule : (a : Action) (v : World) → is_administrative a ≡ true → Kept v → Kept (log a v)
  logged_rule a v h (p, (new, n), q) = (p, (a ∷ new, ap (◌∷◌ a) n), admin a v h q)

  with_loaded_rule :
      (w : World) (body : Checkpoint → World → Outcome)
      → Kept w
      → (Kept (log loaded w) → After Q (body w.disk (log loaded w)))
      → After Q (with_loaded (load e w) body)
  unfolding with_loaded load
  with_loaded_rule w body k next = elim (Option-cases (e.load_error w.trace)) [
    | inr (x, h) ↦ rw (h, with_loaded) (record { at = (logged_rule loaded w refl k).2 })
    | inl h ↦ elim (Option-cases (validate w.disk)) [
      | inr (x, g) ↦ rw (h, g, with_loaded) (record { at = (logged_rule loaded w refl k).2 })
      | inl g ↦ rw (h, g, with_loaded) (next (logged_rule loaded w refl k))
    ]
  ]

  acquire_loaded_rule :
      (r : Result Checkpoint) (w : World) → Kept w → Kept (acquire_loaded e (r, w)).1
  unfolding acquire_loaded
  acquire_loaded_rule (err x) w k = k
  acquire_loaded_rule (ok c) w k = logged_rule _ w refl k

  acquire_rule : (w : World) → Kept w → Kept (acquire e w).1
  unfolding acquire load
  acquire_rule w k =
      if-intro (λ (r : Option Error × World). Kept r.1) e.has_lease
        (λ _. acquire_loaded_rule (load e w).0 (log loaded w) (logged_rule loaded w refl k))
        (λ _. k)

  released_rule : (o : Outcome) → After Q o → After Q (with_lease e (none, o.world) (λ _. o))
  unfolding with_lease
  released_rule o s =
      if-intro (After Q) e.has_lease (λ _. record { at = admin lease_released o.world refl s.at })
        (λ _. s)

  with_lease_rule :
      (x : Option Error) (w : World) (body : World → Outcome)
      → Kept w
      → (Kept w → After Q (body w))
      → After Q (with_lease e (x, w) body)
  unfolding with_lease
  with_lease_rule (some x) w body k next = record { at = k.2 }
  with_lease_rule none w body k next = unfold with_lease in released_rule (body w) (next k)

  -- What holds before a step, and is kept by what the step does once its record is loaded.
  pub step_rule :
      (w : World)
      → w.disk ≡ d
      → w.trace ≡ t
      → Q w
      → ((v : World)
          → v.disk ≡ d
          → Since t v
          → Q v
          → After Q (
              step_loaded e
                (e.clock v.trace)
                (record v.disk { last_observed_utc = e.clock v.trace })
                v))
      → After Q (step e w)
  unfolding step
  step_rule w p n q next =
      with_lease_rule (acquire e w).0 (acquire e w).1 _ (acquire_rule w (p, ([], n), q))
        λ h. with_loaded_rule (acquire e w).1 _ h λ g. next (log loaded (acquire e w).1) g.0 g.1 g.2
