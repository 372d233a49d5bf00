-- ===== src/Recovery/Cancellation.antt =====
-- internal/recovery/dispatcher.go: `Dispatcher.Cancel` and `settleCancelObservation`.
use agents_coworkers.Prelude.{
  ℕ, Bool, true, false, ◌&&◌, ◌||◌, not, ◌==◌, Option, none, some, if◌then◌else◌,
}
use agents_coworkers.Recovery.Errors.{
  Error, delivery_uncertain, session_owner_mismatch, Result, ok, err,
}
use agents_coworkers.Recovery.Checkpoint.{
  TaskState, Checkpoint, cancelled, cancel_unconfirmed, blocked, pending, waiting_retry,
  side_effect_pending,
}
use agents_coworkers.Recovery.World.{
  DeliveryState, TaskReceipt, Observation, DeliveryReceipt, Environment, World, load, save, observe,
  recover_only, stop,
}
use agents_coworkers.Recovery.Dispatcher.{acquire, with_lease, with_loaded}
use agents_coworkers.Recovery.Endings.{
  Outcome, finish, accept_receipt, satisfies_oracle, human_stop,
}

-- `Completed || Blocked || Cancelled`, which a cancellation leaves alone.
abbrev pub is_closed : TaskState → Bool
is_closed TaskState.completed = true
is_closed blocked = true
is_closed cancelled = true
is_closed _ = false

abbrev pub is_unsent : TaskState → Bool
is_unsent pending = true
is_unsent waiting_retry = true
is_unsent _ = false

-- A receipt that names the turn and says what became of it.
abbrev pub is_resolved : DeliveryState → Bool
is_resolved DeliveryState.accepted = true
is_resolved DeliveryState.completed = true
is_resolved DeliveryState.stopped = true
is_resolved DeliveryState.rejected = true
is_resolved _ = false

abbrev pub proves : Checkpoint → Option TaskReceipt → Bool
proves c none = false
proves c (some r) = satisfies_oracle c r

abbrev pub unverified : Checkpoint → Checkpoint
unverified c = record c {
  state = cancel_unconfirmed;
  side_effect = side_effect_pending;
  last_error_kind = "COMPLETED_OUTCOME_UNVERIFIED";
}

unfoldable pub settle_delivery :
    Environment → Checkpoint → Option TaskReceipt → DeliveryState → World → Option Outcome
settle_delivery e c receipt DeliveryState.stopped w =
    some (finish e (record c { state = cancelled; last_error_kind = "HUMAN_STOP" }) w)
settle_delivery e c receipt DeliveryState.completed w =
    if proves c receipt
    then some (accept_receipt e c receipt w)
    else some (finish e (unverified c) w)
settle_delivery e c receipt DeliveryState.rejected w =
    some (finish e (record c { state = blocked; last_error_kind = "DELIVERY_FAILED" }) w)
settle_delivery e c receipt _ w = none

-- `settleCancelObservation`; `none` is `done == false`.
unfoldable pub settle : Environment → Checkpoint → Observation → World → Option Outcome
unfolding settle_delivery
settle e c o w = if not o.session_exists then none else settle_delivery e c o.receipt o.delivery w

abbrev pub or_unsettled : Option Outcome → Checkpoint → Error → World → Outcome
or_unsettled (some r) c x w = r
or_unsettled none c x w = record { cp = c; error = some x; world = w }

-- The observation after a `Stop` that failed: its error is returned unless the turn has settled.
unfoldable pub stop_failed : Environment → Checkpoint → Error → Result Observation × World → Outcome
stop_failed e c x (err y, w) = record { cp = c; error = some x; world = w }
stop_failed e c x (ok o, w) = or_unsettled (settle e c o w) c x w

unfoldable pub confirm_stop : Environment → Checkpoint → Result Observation × World → Outcome
confirm_stop e c (err x, w) = record { cp = c; error = some x; world = w }
confirm_stop e c (ok o, w) = or_unsettled (settle e c o w) c delivery_uncertain w

unfoldable pub after_stop : Environment → Checkpoint → Option Error × World → Outcome
after_stop e c (some x, w) = stop_failed e c x (observe e c w)
after_stop e c (none, w) = confirm_stop e c (observe e c w)

unfoldable pub stop_owned : Environment → Checkpoint → World → Outcome
stop_owned e c w =
    if not c.session_exclusive || c.run_owner == ""
    then record { cp = c; error = some session_owner_mismatch; world = w }
    else after_stop e c (stop e c w)

unfoldable pub reconcile_stop : Environment → Checkpoint → Result Observation × World → Outcome
reconcile_stop e c (err x, w) = record { cp = c; error = some x; world = w }
reconcile_stop e c (ok o, w) = elim (settle e c o w) [ some r ↦ r | none ↦ stop_owned e c w ]

unfoldable pub turn_saved : Environment → Checkpoint → Option Error × World → Outcome
turn_saved e c (some x, w) = record { cp = c; error = some x; world = w }
turn_saved e c (none, w) = reconcile_stop e c (observe e c w)

unfoldable pub find_turn : Environment → Checkpoint → Result DeliveryReceipt × World → Outcome
unfolding turn_saved
find_turn e c (err x, w) = record { cp = c; error = some x; world = w }
find_turn e c (ok r, w) =
    if r.turn_id == "" || not (is_resolved r.state)
    then record { cp = c; error = some delivery_uncertain; world = w }
    else let d = record c { ao_turn_id = r.turn_id } in turn_saved e d (save e d w)

-- Local cancellation is on disk before any recovery or interrupt I/O.
unfoldable pub cancel_saved : Environment → Checkpoint → Option Error × World → Outcome
cancel_saved e c (some x, w) = record { cp = c; error = some x; world = w }
cancel_saved e c (none, w) =
    if c.ao_turn_id == ""
    then find_turn e c (recover_only e c w)
    else reconcile_stop e c (observe e c w)

abbrev pub unconfirmed : ℕ → Checkpoint → Checkpoint
unconfirmed now c = record c {
  state = cancel_unconfirmed;
  next_retry_at = none;
  last_error_kind = "AO_STOP_UNCONFIRMED";
  last_observed_utc = now;
}

unfoldable pub cancel_loaded : Environment → ℕ → Checkpoint → World → Outcome
cancel_loaded e now c w =
    if is_closed c.state
    then record { cp = c; error = none; world = w }
    else if c.ao_turn_id == "" && is_unsent c.state
    then finish e (record (human_stop c) { last_observed_utc = now }) w
    else cancel_saved e (unconfirmed now c) (save e (unconfirmed now c) w)

unfoldable pub cancel : Environment → ℕ → World → Outcome
cancel e now w =
    with_lease e (acquire e w) λ v. with_loaded (load e v) λ c u. cancel_loaded e now c u
