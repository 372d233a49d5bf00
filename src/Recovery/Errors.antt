-- ===== src/Recovery/Errors.antt =====
-- The sentinel errors of internal/recovery (dispatcher.go, lease.go, runner.go). An error wrapped
-- by `%w` keeps its sentinel, which is all that `errors.Is` reads; message texts are not modelled.
use agents_coworkers.Prelude.{◌≡◌, refl, Bool, true, false, String}

pub data Error : Type 0 where
  provider_unavailable delivery_uncertain request_not_accepted : Error
  session_contaminated session_not_idle session_owner_mismatch : Error
  lease_held nil_dispatcher : Error
  canceled deadline_exceeded : Error
  other : String → Error

-- The result of a call that returns `(T, error)`.
pub data Result {ℓ} (A : Type ℓ) : Type ℓ where
  ok : A → Result A
  err : Error → Result A

-- `errors.Is(err, ErrSessionContaminated)`
abbrev pub is_contaminated : Error → Bool
is_contaminated session_contaminated = true
is_contaminated _ = false

-- `errors.Is(err, ErrRequestNotAccepted)`
abbrev pub is_not_accepted : Error → Bool
is_not_accepted request_not_accepted = true
is_not_accepted _ = false

-- `errors.Is(err, ErrLeaseHeld)`
abbrev pub is_lease_held : Error → Bool
is_lease_held lease_held = true
is_lease_held _ = false

-- A property of a test of a result, from the property of each branch.
pub result-intro {ℓ κ μ} :
    {A : Type ℓ} {B : Type μ} (P : B → Type κ) (o : Result A) {f : Error → B} {g : A → B}
    → ((x : Error) → o ≡ err x → P (f x))
    → ((a : A) → o ≡ ok a → P (g a))
    → P (elim o [ err x ↦ f x | ok a ↦ g a ])
result-intro P (err x) h k = h x refl
result-intro P (ok a) h k = k a refl
