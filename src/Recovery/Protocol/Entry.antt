-- ===== src/Recovery/Protocol/Entry.antt =====
-- Loads and the lease of internal/recovery/dispatcher.go keep the protocol: rules for `with_loaded`
-- and `with_lease`, by which `Step` and `Cancel` both begin.
use agents_coworkers.Prelude.{◌≡◌, refl, inl, inr, Option, none, some, if-intro, Option-cases}
use agents_coworkers.Recovery.Errors.{Error, Result, ok, err}
use agents_coworkers.Recovery.Checkpoint.{Checkpoint, validate}
use agents_coworkers.Recovery.World.{Environment, World, log, load, loaded, lease_released}
use agents_coworkers.Recovery.Dispatcher.{with_loaded, acquire_loaded, acquire, with_lease}
use agents_coworkers.Recovery.Endings.{Outcome}
use agents_coworkers.Recovery.Protocol.{Safe}
use agents_coworkers.Recovery.Protocol.Saves.{SafeAfter}
use agents_coworkers.Recovery.Protocol.Finishers.{log-Safe}

module _ (d : Checkpoint) (e : Environment) where
  -- A load that succeeds hands over the record on disk, which is valid.
  pub with_loaded-Safe :
      (w : World) (body : Checkpoint → World → Outcome)
      → Safe d w
      → (validate w.disk ≡ none → SafeAfter d (body w.disk (log loaded w)))
      → SafeAfter d (with_loaded (load e w) body)
  unfolding with_loaded load
  with_loaded-Safe w body s k = elim (Option-cases (e.load_error w.trace)) [
    | inr (x, p) ↦ rw (p, with_loaded) (record { safe = log-Safe d loaded w refl s })
    | inl p ↦ elim (Option-cases (validate w.disk)) [
      | inr (x, q) ↦ rw (p, q, with_loaded) (record { safe = log-Safe d loaded w refl s })
      | inl q ↦ rw (p, q, with_loaded) (k q)
    ]
  ]

  release_after :
      (o : Outcome) → SafeAfter d o → SafeAfter d (with_lease e (none, o.world) (λ _. o))
  unfolding with_lease
  release_after o s =
      if-intro (SafeAfter d) e.has_lease
        (λ _. record { safe = log-Safe d lease_released o.world refl s.safe }) (λ _. s)

  with_lease_step :
      (x : Option Error) (w : World) (body : World → Outcome)
      → Safe d w
      → ((v : World) → Safe d v → SafeAfter d (body v))
      → SafeAfter d (with_lease e (x, w) body)
  unfolding with_lease
  with_lease_step (some x) w body s k = record { safe = s }
  with_lease_step none w body s k = unfold with_lease in release_after (body w) (k w s)

  acquire_loaded-Safe :
      (r : Result Checkpoint) (w : World) → Safe d w → Safe d (acquire_loaded e (r, w)).1
  unfolding acquire_loaded
  acquire_loaded-Safe (err x) w s = s
  acquire_loaded-Safe (ok c) w s = log-Safe d _ w refl s

  acquire-Safe : (w : World) → Safe d w → Safe d (acquire e w).1
  unfolding acquire load
  acquire-Safe w s =
      if-intro (λ (r : Option Error × World). Safe d r.1) e.has_lease
        (λ _. acquire_loaded-Safe (load e w).0 (log loaded w) (log-Safe d loaded w refl s)) (λ _. s)

  pub with_lease-Safe :
      (w : World) (body : World → Outcome)
      → Safe d w
      → ((v : World) → Safe d v → SafeAfter d (body v))
      → SafeAfter d (with_lease e (acquire e w) body)
  with_lease-Safe w body s k =
      with_lease_step (acquire e w).0 (acquire e w).1 body (acquire-Safe w s) k
