-- ===== src/Recovery/Lease/Laws.antt =====
-- The operations of internal/recovery/lease.go against one another.
use agents_coworkers.Prelude.{
  ◌≡◌, refl, ◌⊎◌, inl, inr, true, false, String, ◌==◌, not, eq_iff, Option, none, some, arith,
  Bool-cases, if-intro, option-intro, subst, sym, if◌then◌else◌, ◌≢◌,
}
use agents_coworkers.Recovery.Errors.{Error, lease_held}
use agents_coworkers.Recovery.Lease.{
  FileLease, Dir, write, Host, lease_path, held_record, clean_up, create_exclusive, acquire,
  release, is_incomplete, is_mine,
}

-- What the codec promises of the record of a holder: what was written reads back.
abbrev pub Decodes : Host → FileLease → String → Type 0
Decodes s l task_id = s.decode (s.encode (held_record s l task_id)) ≡ some (held_record s l task_id)

-- Nothing fails in the operating system.
pub record Healthy (s : Host) : Type 0 where
  pub context_fine : s.context_error ≡ none
  pub mkdir_fine : s.mkdir_error ≡ none
  pub open_fine : s.open_error ≡ none
  pub write_fine : s.write_error ≡ none
  pub read_fine : s.read_error ≡ none
  pub remove_fine : s.remove_error ≡ none

-- A refusal that leaves every file as it was; a file that could neither be written nor removed; or
-- an exclusive creation.
abbrev pub Creates : Host → String → String → Dir → Option Error × Dir → Type 0
Creates s path content d r =
    ((r.0 ≢ none) × ((q : String) → r.1 q ≡ d q))
    ⊎ (((r.0 ≢ none)
          × (s.write_error ≢ none)
          × (s.remove_error ≢ none)
          × (d path ≡ none)
          × ((q : String) → (path == q) ≡ false → r.1 q ≡ d q))
        ⊎ ((r.0 ≡ none)
            × (d path ≡ none)
            × ((q : String) → r.1 q ≡ (if path == q then some content else d q))))

refused :
    (s : Host) (path content : String) (d : Dir) (x : Error) → Creates s path content d (some x, d)
refused s path content d x = inl (λ p. cc, λ q. refl)

-- A file that is removed again where there was none.
removed_again : (path q : String) (d : Dir) → d path ≡ none → write path none d q ≡ d q
removed_again path q d p = elim (Bool-cases (path == q)) [
  | inl e ↦ rw e (sym (subst (λ z. d z ≡ none) ((eq_iff path q).0 e) p))
  | inr e ↦ rw e
]

create_exclusive-Creates :
    (s : Host) (path content : String) (d : Dir)
    → Creates s path content d (create_exclusive s path content d)
unfolding create_exclusive
create_exclusive-Creates s path content d =
    option-intro (Creates s path content d) (d path)
      (λ p.
        option-intro (Creates s path content d) s.open_error
          (λ o.
            option-intro (Creates s path content d) s.write_error
              (λ w. inr (inr (refl, p, λ q. refl))) (λ x w. cleaned x w p))
          (λ x o. refused s path content d x))
      (λ c p. refused s path content d lease_held)
  where
    some_error : (o : Option Error) (x : Error) → o ≡ some x → o ≢ none
    some_error o x e n = absurd (cc)

    cleaned :
        (x : Error)
        → s.write_error ≡ some x
        → d path ≡ none
        → Creates s path content d (some x, clean_up s path content d)
    cleaned x w p =
        option-intro (λ e. Creates s path content d (some x, e)) s.remove_error
          (λ r. inl (λ z. cc, λ q. removed_again path q d p))
          λ y r. inr (
            inl (
              λ z. cc,
              some_error s.write_error x w,
              some_error s.remove_error y r,
              p,
              λ q n. rw n refl,
            ))

-- An acquisition that fails leaves every file as it was, except where there was no file, the record
-- could not be written and what was written could not be removed: then only the file of the lease
-- differs. One that succeeds found no file at the path of the lease, and leaves there the record of
-- its holder and nothing else changed.
pub acquire-Creates :
    (s : Host) (l : FileLease) (run_owner task_id : String) (d : Dir)
    → Creates s
        (lease_path s l.root run_owner task_id)
        (s.encode (held_record s l task_id))
        d
        (acquire s l run_owner task_id d)
unfolding acquire
acquire-Creates s l run_owner task_id d =
    let path = lease_path s l.root run_owner task_id in
    let content = s.encode (held_record s l task_id) in
    option-intro (Creates s path content d) s.context_error
      (λ c.
        if-intro (Creates s path content d) (is_incomplete s l run_owner task_id)
          (λ i. refused s path content d _)
          λ i.
            option-intro (Creates s path content d) s.mkdir_error
              (λ m. create_exclusive-Creates s path content d) (λ x m. refused s path content d x))
      (λ x c. refused s path content d x)

-- While the file of a lease exists, whoever wrote it, nobody acquires the lease, and no file
-- changes.
pub acquire_excluded :
    (s : Host) (l : FileLease) (run_owner task_id content : String) (d : Dir)
    → d (lease_path s l.root run_owner task_id) ≡ some content
    → ((acquire s l run_owner task_id d).0 ≢ none)
      × ((q : String) → (acquire s l run_owner task_id d).1 q ≡ d q)
acquire_excluded s l run_owner task_id content d h =
    elim (acquire-Creates s l run_owner task_id d) [
      | inl r ↦ r
      | inr (inl r) ↦ absurd (cc (r.3))
      | inr (inr r) ↦ absurd (cc (r.1))
    ]

-- Nothing changed, or the file of the lease, which names this owner and this task, is removed.
abbrev pub Removes : Host → FileLease → String → String → Dir → Option Error × Dir → Type 0
Removes s l path task_id d r =
    ((r.0 ≢ none) × (r.1 ≡ d))
    ⊎ ((r.0 ≡ none)
        × (r.1 ≡ write path none d)
        × ((content : String) × (d path ≡ some content)
            × (is_mine s l task_id (s.decode content) ≡ true)))

kept :
    (s : Host) (l : FileLease) (path task_id : String) (d : Dir) (x : Error)
    → Removes s l path task_id d (some x, d)
kept s l path task_id d x = inl (λ p. cc, refl)

-- A release changes nothing and fails, or removes the file of its own lease; and it removes it only
-- if the record in the file names its owner and its task.
pub release-Removes :
    (s : Host) (l : FileLease) (run_owner task_id : String) (d : Dir)
    → Removes s l
        (lease_path s l.root run_owner task_id)
        task_id
        d
        (release s l run_owner task_id d)
unfolding release
release-Removes s l run_owner task_id d =
    let path = lease_path s l.root run_owner task_id in
    option-intro (Removes s l path task_id d) (d path) (λ p. kept s l path task_id d _)
      λ content p.
        option-intro (Removes s l path task_id d) s.read_error
          (λ r.
            if-intro (Removes s l path task_id d) (not (is_mine s l task_id (s.decode content)))
              (λ m. kept s l path task_id d lease_held)
              λ m.
                option-intro (Removes s l path task_id d) s.remove_error
                  (λ v. inr (refl, refl, (content, p, ground (arith, m))))
                  (λ x v. kept s l path task_id d x))
          (λ x r. kept s l path task_id d x)
