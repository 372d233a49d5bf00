-- ===== src/Recovery/Lease/Exclusion.antt =====
-- internal/recovery/lease.go among several processes: the system calls of `Acquire` and of the
-- release on the one file of a lease, in any order, with processes that fail or die between any two.
use agents_coworkers.Prelude.{
  ℕ, ◌≡◌, ◌≢◌, sym, subst, Bool, true, false, String, Option, none, some, nat_eq, if◌then◌else◌,
  arith,
}
use agents_coworkers.Recovery.Lease.{FileLease, Host, held_record, is_mine}

-- Where a process stands: between the calls of `Acquire`, with the lease, or between the read and
-- the removal of the release.
pub data Phase : Type 0 where
  idle writing holding releasing : Phase

abbrev pub active : Phase → Bool
active idle = false
active _ = true

pub record Contest : Type 0 where
  pub file : Option String
  pub phase : ℕ → Phase

abbrev pub enter : ℕ → Phase → Option String → Contest → Contest
enter i p f c = record { file = f; phase = λ j. if nat_eq i j then p else c.phase j }

-- One system call of process `i`, or its end.
pub data Call (s : Host) (l : ℕ → FileLease) (task_id : String) : Contest → Contest → Type 0 where
  opens :
      (c : Contest) (i : ℕ)
      → c.phase i ≡ idle
      → c.file ≡ none
      → Call s l task_id c (enter i writing (some "") c)
  writes :
      (c : Contest) (i : ℕ)
      → c.phase i ≡ writing
      → Call s l task_id c (enter i holding (some (s.encode (held_record s (l i) task_id))) c)
  undoes : (c : Contest) (i : ℕ) → c.phase i ≡ writing → Call s l task_id c (enter i idle none c)
  reads :
      (c : Contest) (i : ℕ) (content : String)
      → c.phase i ≡ holding
      → c.file ≡ some content
      → is_mine s (l i) task_id (s.decode content) ≡ true
      → Call s l task_id c (enter i releasing c.file c)
  removes : (c : Contest) (i : ℕ) → c.phase i ≡ releasing → Call s l task_id c (enter i idle none c)
  ends : (c : Contest) (i : ℕ) → Call s l task_id c (enter i idle c.file c)

pub data Calls (s : Host) (l : ℕ → FileLease) (task_id : String) (c : Contest)
    : Contest → Type 0 where
  here : Calls s l task_id c c
  next : {a b : Contest} → Calls s l task_id c a → Call s l task_id a b → Calls s l task_id c b

-- At most one process is active, and the file exists while one is.
pub record Exclusive (c : Contest) : Type 0 where
  pub alone : (i j : ℕ) → active (c.phase i) ≡ true → active (c.phase j) ≡ true → i ≡ j
  pub marked : (i : ℕ) → active (c.phase i) ≡ true → c.file ≢ none

-- The active process of before moves on, and the file is there.
moves-Exclusive :
    (c : Contest) (i : ℕ) (p : Phase) (f : String)
    → active (c.phase i) ≡ true
    → Exclusive c
    → Exclusive (enter i p (some f) c)
moves-Exclusive c i p f a x = record {
  alone = λ j k u v. ground (arith, x.alone i j a, x.alone i k a);
  marked = λ j u z. cc;
}

-- A process takes the free file.
opens-Exclusive :
    (c : Contest) (i : ℕ) (f : String)
    → c.file ≡ none
    → Exclusive c
    → Exclusive (enter i writing (some f) c)
opens-Exclusive c i f n x = record {
  alone = λ j k u v. ground (arith, x.marked j, x.marked k, n);
  marked = λ j u z. cc;
}

-- The active process removes the file and is idle.
clears-Exclusive :
    (c : Contest) (i : ℕ)
    → active (c.phase i) ≡ true
    → Exclusive c
    → Exclusive (enter i idle none c)
clears-Exclusive c i a x = record {
  alone = λ j k u v. ground (arith, x.alone i j a, x.alone i k a);
  marked = λ j u z. ground (arith, x.alone i j a);
}

ends-Exclusive : (c : Contest) (i : ℕ) → Exclusive c → Exclusive (enter i idle c.file c)
ends-Exclusive c i x = record {
  alone = λ j k u v. ground (arith, x.alone j k);
  marked = λ j u z. ground (arith, x.marked j, z);
}

kept_file :
    (c : Contest) (i : ℕ) (content : String)
    → c.file ≡ some content
    → active (c.phase i) ≡ true
    → Exclusive c
    → Exclusive (enter i releasing c.file c)
kept_file c i content f a x =
    subst (λ z. Exclusive (enter i releasing z c)) (sym f)
      (moves-Exclusive c i releasing content a x)

Call-Exclusive :
    (s : Host) (l : ℕ → FileLease) (task_id : String) {b c : Contest}
    → Call s l task_id b c
    → Exclusive b
    → Exclusive c
Call-Exclusive s l task_id (opens b i p n) x = opens-Exclusive b i "" n x
Call-Exclusive s l task_id (writes b i p) x = moves-Exclusive b i holding _ (rw p) x
Call-Exclusive s l task_id (undoes b i p) x = clears-Exclusive b i (rw p) x
Call-Exclusive s l task_id (reads b i content p f m) x = kept_file b i content f (rw p) x
Call-Exclusive s l task_id (removes b i p) x = clears-Exclusive b i (rw p) x
Call-Exclusive s l task_id (ends b i) x = ends-Exclusive b i x

-- Whatever the order of the system calls, and whichever processes fail or die between them, at most
-- one process at a time is between its exclusive create and the removal of the lease file, and the
-- file exists while one is.
pub Calls-Exclusive :
    (s : Host) (l : ℕ → FileLease) (task_id : String) (b : Contest) {c : Contest}
    → Exclusive b
    → Calls s l task_id b c
    → Exclusive c
Calls-Exclusive s l task_id b x here = x
Calls-Exclusive s l task_id b x (next r k) =
    Call-Exclusive s l task_id k (Calls-Exclusive s l task_id b x r)
