-- ===== src/Recovery/Protocol/Saves.antt =====
-- The saves of internal/recovery/dispatcher.go keep the protocol.
use agents_coworkers.Prelude.{
  ◌≡◌, refl, inl, inr, false, Option, none, some, ◌∷◌, arith, Option-cases,
}
use agents_coworkers.Prelude.Int.{is_neg}
use agents_coworkers.Recovery.Errors.{Error}
use agents_coworkers.Recovery.Checkpoint.{Checkpoint, validate}
use agents_coworkers.Recovery.World.{Environment, World, log, save, saved, save_failed}
use agents_coworkers.Recovery.Endings.{Outcome, finish, finish_with}
use agents_coworkers.Recovery.Protocol.{just_refused, Successor, Safe}

pub validate_counted : (c : Checkpoint) → validate c ≡ none → is_neg c.attempts ≡ false
unfolding validate
validate_counted c h = ground arith

-- A save fails and leaves the disk alone, or puts a valid record there.
pub save_cases {ℓ} :
    (P : Option Error × World → Type ℓ) (e : Environment) (c : Checkpoint) (w : World)
    → ((x : Error) → P (some x, log (save_failed c) w))
    → (validate c ≡ none → P (none, record { disk = c; trace = saved c ∷ w.trace }))
    → P (save e c w)
unfolding save
save_cases P e c w lost done = elim (Option-cases (validate c)) [
  | inr (x, p) ↦ rw (p, save) (lost x)
  | inl p ↦ elim (Option-cases (e.save_error w.trace c)) [
    | inr (x, q) ↦ rw (p, q, save) (lost x)
    | inl q ↦ rw (p, q, save) (done p)
  ]
]

failed-Safe : (d c : Checkpoint) (w : World) → Safe d w → Safe d (log (save_failed c) w)
failed-Safe d c w s = record { on_disk = s.on_disk; guarded = s.guarded; counted = s.counted }

pub saved-Safe :
    (d c : Checkpoint) (w : World)
    → Safe d w
    → Successor (just_refused w.trace) w.disk c
    → validate c ≡ none
    → Safe d (record { disk = c; trace = saved c ∷ w.trace })
saved-Safe d c w s n v = record {
  on_disk = refl;
  guarded = (rw s.on_disk at n, validate_counted c v, s.guarded);
  counted = validate_counted c v;
}

-- The world that an outcome leaves.
pub record SafeAfter (d : Checkpoint) (o : Outcome) : Type 0 where
  pub safe : Safe d o.world

module _ (d : Checkpoint) (e : Environment) (c : Checkpoint) (w : World) (s : Safe d w) where
  pub save-Safe : Successor (just_refused w.trace) w.disk c → Safe d (save e c w).1
  save-Safe n = save_cases (λ r. Safe d r.1) e c w (λ x. failed-Safe d c w s) (saved-Safe d c w s n)

  pub finish-Safe : Successor (just_refused w.trace) w.disk c → SafeAfter d (finish e c w)
  unfolding finish
  finish-Safe n = record { safe = save-Safe n }

  pub finish_with-Safe :
      (x : Error) → Successor (just_refused w.trace) w.disk c → SafeAfter d (finish_with e c x w)
  unfolding finish_with
  finish_with-Safe x n = record { safe = save-Safe n }
