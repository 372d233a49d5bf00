-- ===== src/Recovery/Protocol/Counting.antt =====
-- What the protocol says of the number of sends.
use agents_coworkers.Prelude.{
  ℕ, suc, ◌≤◌, ◌≡◌, refl, ◌∙◌, inl, inr, Bool, true, false, String, [], ◌∷◌, arith,
}
use agents_coworkers.Prelude.Int.{ℤ, pos_part, is_neg, increment-pos_part, int_le-lt}
use agents_coworkers.Recovery.Checkpoint.{Checkpoint}
use agents_coworkers.Recovery.World.{History, saved, sent, not_accepted}
use agents_coworkers.Recovery.Protocol.{
  disk_of, sends, refusals, sendable, just_refused, Successor, Armed, Guarded,
}

-- Attempts never fall from one save to the next.
Successor-mono :
    {r : Bool} (d c : Checkpoint)
    → is_neg d.attempts ≡ false
    → is_neg c.attempts ≡ false
    → Successor r d c
    → pos_part d.attempts ≤ pos_part c.attempts
Successor-mono d c p q s = elim s.attempts_kept [
  | inl e ↦ ground (arith, e)
  | inr e ↦ ground (arith, increment-pos_part d.attempts, e)
]

pub disk_nonneg :
    (d : Checkpoint) (t : History)
    → is_neg d.attempts ≡ false
    → Guarded d t
    → is_neg (disk_of d t).attempts ≡ false
disk_nonneg d [] p g = p
disk_nonneg d (saved c ∷ t) p g = g.1
disk_nonneg d (sent s i m ∷ t) p g = disk_nonneg d t p g.1
disk_nonneg d (_ ∷ t) p g = disk_nonneg d t p g

-- An armed record counts one attempt more.
Armed-attempts :
    (d c : Checkpoint) (s i m : String) (n : ℕ)
    → is_neg d.attempts ≡ false
    → is_neg c.attempts ≡ false
    → Armed d c s i m
    → n ≤ pos_part d.attempts
    → suc n ≤ pos_part c.attempts
Armed-attempts d c s i m n p q a h = ground (arith, increment-pos_part d.attempts, a.counted)

-- Every send has its attempt on disk.
pub sends-le-attempts :
    (d : Checkpoint) (t : History)
    → is_neg d.attempts ≡ false
    → Guarded d t
    → sends t ≤ pos_part (disk_of d t).attempts
sends-le-attempts d [] p g = omega arith
sends-le-attempts d (saved c ∷ t) p g = omega (
  arith,
  sends-le-attempts d t p g.2,
  Successor-mono (disk_of d t) c (disk_nonneg d t p g.2) g.1 g.0,
)
sends-le-attempts d (sent s i m ∷ (saved c ∷ t)) p g =
    Armed-attempts (disk_of d t) c s i m (sends t) (disk_nonneg d t p g.1.2) g.1.1 g.0
      (sends-le-attempts d t p g.1.2)
sends-le-attempts d (sent s i m ∷ _) p g = elim g.0 [ ]
sends-le-attempts d (_ ∷ t) p g = sends-le-attempts d t p g

budget_of_disk :
    (d : Checkpoint) (t : History) → Guarded d t → (disk_of d t).retry_budget ≡ d.retry_budget
budget_of_disk d [] g = refl
budget_of_disk d (saved c ∷ t) g = g.0.budget_kept ∙ budget_of_disk d t g.2
budget_of_disk d (sent s i m ∷ t) g = budget_of_disk d t g.1
budget_of_disk d (_ ∷ t) g = budget_of_disk d t g

-- Before a send the attempts are below the budget.
Armed-budget :
    (d c : Checkpoint) (s i m : String) (n : ℕ) (b : ℤ)
    → is_neg d.attempts ≡ false
    → Armed d c s i m
    → d.retry_budget ≡ b
    → n ≤ pos_part d.attempts
    → suc n ≤ pos_part b
Armed-budget d c s i m n b p a e h =
    ground (arith, int_le-lt d.attempts d.retry_budget p a.in_budget, e)

pub sends-le-budget :
    (d : Checkpoint) (t : History)
    → is_neg d.attempts ≡ false
    → Guarded d t
    → sends t ≤ pos_part d.retry_budget
sends-le-budget d [] p g = omega arith
sends-le-budget d (sent s i m ∷ (saved c ∷ t)) p g =
    Armed-budget (disk_of d t) c s i m (sends t) d.retry_budget (disk_nonneg d t p g.1.2) g.0
      (budget_of_disk d t g.1.2) (sends-le-attempts d t p g.1.2)
sends-le-budget d (sent s i m ∷ _) p g = elim g.0 [ ]
sends-le-budget d (saved c ∷ t) p g = sends-le-budget d t p g.2
sends-le-budget d (_ ∷ t) p g = sends-le-budget d t p g

-- What the number of sends owes to the refusals; `refused` says that the last of them is the
-- answer to the last send.
record Owed (refused : Bool) (d : Checkpoint) (n r : ℕ) : Type 0 where
  at_most : n ≤ suc r
  if_sendable : sendable d ≡ true → n ≤ r
  if_refused : refused ≡ true → n ≤ r

saved-Owed :
    {refused : Bool} (d c : Checkpoint) (n r : ℕ)
    → Successor refused d c
    → Owed refused d n r
    → Owed false c n r
saved-Owed d c n r s o = record {
  at_most = o.at_most;
  if_sendable = λ h. elim (s.no_relapse h) [ inl k ↦ o.if_sendable k | inr k ↦ o.if_refused k ];
  if_refused = λ h. absurd (cc);
}

Armed-Owed :
    {refused : Bool} (d c : Checkpoint) (s i m : String) (n r : ℕ)
    → Armed d c s i m
    → Owed refused d n r
    → Owed false c (suc n) r
Armed-Owed d c s i m n r a o = record {
  at_most = omega (arith, o.if_sendable a.from_sendable);
  if_sendable = λ h. absurd (ground (arith, h, a.now_uncertain));
  if_refused = λ h. absurd (cc);
}

refused-Owed :
    {refused : Bool} (d : Checkpoint) (n r : ℕ) → Owed refused d n r → Owed true d n (suc r)
refused-Owed d n r o = record {
  at_most = omega (arith, o.at_most);
  if_sendable = λ h. o.at_most;
  if_refused = λ h. o.at_most;
}

kept-Owed : {refused : Bool} (d : Checkpoint) (n r : ℕ) → Owed refused d n r → Owed false d n r
kept-Owed d n r o = record {
  at_most = o.at_most;
  if_sendable = o.if_sendable;
  if_refused = λ h. absurd (cc);
}

sends-Owed :
    (d : Checkpoint) (t : History)
    → Guarded d t
    → Owed (just_refused t) (disk_of d t) (sends t) (refusals t)
sends-Owed d [] g = record {
  at_most = omega arith;
  if_sendable = λ h. omega arith;
  if_refused = λ h. absurd (cc);
}
sends-Owed d (saved c ∷ t) g =
    saved-Owed (disk_of d t) c (sends t) (refusals t) g.0 (sends-Owed d t g.2)
sends-Owed d (sent s i m ∷ (saved c ∷ t)) g =
    Armed-Owed (disk_of d t) c s i m (sends t) (refusals t) g.0 (sends-Owed d t g.1.2)
sends-Owed d (sent s i m ∷ _) g = elim g.0 [ ]
sends-Owed d (not_accepted ∷ t) g =
    refused-Owed (disk_of d t) (sends t) (refusals t) (sends-Owed d t g)
sends-Owed d (_ ∷ t) g = kept-Owed (disk_of d t) (sends t) (refusals t) (sends-Owed d t g)

pub sends-le-refusals : (d : Checkpoint) (t : History) → Guarded d t → sends t ≤ suc (refusals t)
sends-le-refusals d t g = (sends-Owed d t g).at_most
