-- ===== src/Examples/Leases.antt =====
-- A lease of internal/recovery/lease.go that is acquired, inspected and released.
use Prim.Native.String.{◌++◌ as ◌<>◌}
use agents_coworkers.Prelude.{◌≡◌, ◌≢◌, refl, ℕ, String, ◌==◌, none, some, if◌then◌else◌, nat_eq}
use agents_coworkers.Prelude.Int.{pos}
use agents_coworkers.Recovery.Errors.{ok}
use agents_coworkers.Recovery.Lease.{
  FileLease, Dir, write, Host, lease_dir, lease_path, acquire, release, inspect, create_exclusive,
}
use agents_coworkers.Recovery.Lease.Laws.{
  Creates, acquire-Creates, acquire_excluded, Removes, release-Removes,
}
use agents_coworkers.Recovery.Lease.Inspection.{IsRooted, Sees, release-acquire, inspect-acquire}
use agents_coworkers.Recovery.Lease.Exclusion.{
  idle, writing, holding, releasing, Contest, enter, Call, Calls, here, next, Exclusive,
  Calls-Exclusive,
}

abbrev host : Host
host = record {
  pid = pos 42;
  absolute = λ p. ok p;
  join = λ a b. a <> "/" <> b;
  digest = λ t. t;
  encode = λ r. r.owner_id <> " has " <> r.task_id;
  decode = λ t.
      if t == "alice has t1"
      then some (record { owner_id = "alice"; task_id = "t1"; pid = pos 42 })
      else none;
  context_error = none;
  mkdir_error = none;
  open_error = none;
  write_error = none;
  written = λ content. "";
  read_error = none;
  remove_error = none;
}

abbrev leases : String
leases = "/w/.agents-coworkers/recovery-leases"

abbrev alice : FileLease
alice = record { workspace_root = "/w"; root = leases; owner_id = "alice" }

abbrev bob : FileLease
bob = record { workspace_root = "/w"; root = leases; owner_id = "bob" }

abbrev empty : Dir
empty p = none

abbrev path : String
path = "/w/.agents-coworkers/recovery-leases/r1\nt1.lease"

abbrev taken : Dir
taken = write path (some "alice has t1") empty

alice_acquires : acquire host alice "r1" "t1" empty ≡ (none, taken)
unfolding acquire create_exclusive lease_path
alice_acquires = refl

acquire-Creates_example :
    Creates host
      (lease_path host leases "r1" "t1")
      "alice has t1"
      empty
      (acquire host alice "r1" "t1" empty)
acquire-Creates_example = acquire-Creates host alice "r1" "t1" empty

acquire_excluded_example :
    ((acquire host bob "r1" "t1" taken).0 ≢ none)
    × ((q : String) → (acquire host bob "r1" "t1" taken).1 q ≡ taken q)
unfolding lease_path
acquire_excluded_example = acquire_excluded host bob "r1" "t1" "alice has t1" taken refl

release-Removes_example :
    Removes host bob
      (lease_path host leases "r1" "t1")
      "t1"
      taken
      (release host bob "r1" "t1" taken)
release-Removes_example = release-Removes host bob "r1" "t1" taken

release-acquire_example :
    ((release host alice "r1" "t1" taken).0 ≡ none)
    × ((q : String) → (release host alice "r1" "t1" taken).1 q ≡ empty q)
release-acquire_example =
    release-acquire host alice "r1" "t1" empty taken refl refl refl alice_acquires

bob-IsRooted : IsRooted host bob
unfolding lease_dir
bob-IsRooted = record { named = refl; absolute_root = refl; root_of = refl }

inspect-acquire_example : Sees host alice bob "t1" (inspect host bob "r1" "t1" taken)
inspect-acquire_example =
    inspect-acquire host alice bob "r1" "t1" empty taken refl refl bob-IsRooted refl refl refl refl
      alice_acquires

-- Process 0 takes and gives back the lease, then process 1 takes it.
abbrev nobody : Contest
nobody = record { file = none; phase = λ i. idle }

nobody_active : Exclusive nobody
nobody_active = record { alone = λ i j u v. absurd (cc); marked = λ i u. absurd (cc) }

abbrev turns : ℕ → FileLease
turns i = if nat_eq i 0 then alice else bob

abbrev one : Contest
one = enter 0 writing (some "") nobody

abbrev two : Contest
two = enter 0 holding (some "alice has t1") one

abbrev three : Contest
three = enter 0 releasing (some "alice has t1") two

abbrev four : Contest
four = enter 0 idle none three

abbrev five : Contest
five = enter 1 writing (some "") four

taken_in_turn : Calls host turns "t1" nobody five
taken_in_turn =
    next
      (next
        (next (next (next here (Call.opens nobody 0 refl refl)) (Call.writes one 0 refl))
          (Call.reads two 0 "alice has t1" refl refl refl))
        (Call.removes three 0 refl))
      (Call.opens four 1 refl refl)

Calls-Exclusive_example : Exclusive five
Calls-Exclusive_example = Calls-Exclusive host turns "t1" nobody nobody_active taken_in_turn
