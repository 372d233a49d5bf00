-- ===== src/Recovery/Lease/Inspection.antt =====
-- What internal/recovery/lease.go sees and undoes of a lease that has been acquired.
use agents_coworkers.Prelude.{
  ◌≡◌, refl, inl, inr, true, false, ◌||◌, not, String, ◌==◌, eq_refl, eq_iff, Option, none, some,
  arith, Bool-cases, if-intro, option-intro, subst, sym, ◌∙◌, if◌then◌else◌,
}
use agents_coworkers.Recovery.Errors.{Error, Result, ok, err, result-intro}
use agents_coworkers.Recovery.Lease.{
  FileLease, LeaseRecord, LeaseInspection, lease_owned, lease_locked, Dir, write, Host, lease_dir,
  lease_path, held_record, acquire, release, inspect, inspect_lease, inspect_file, judge_record,
  is_mine, remove,
}
use agents_coworkers.Recovery.Lease.Laws.{Decodes, Creates, acquire-Creates}

-- The file that an acquisition left.
acquired_file :
    (s : Host) (l : FileLease) (run_owner task_id : String) (d d' : Dir)
    → acquire s l run_owner task_id d ≡ (none, d')
    → (d (lease_path s l.root run_owner task_id) ≡ none)
      × ((q : String)
          → d' q ≡ (
              if lease_path s l.root run_owner task_id == q
              then some (s.encode (held_record s l task_id))
              else d q))
acquired_file s l run_owner task_id d d' p =
    elim (subst (Creates s _ _ d) p (acquire-Creates s l run_owner task_id d)) [
      | inl r ↦ absurd (r.0 refl)
      | inr (inl r) ↦ absurd (r.0 refl)
      | inr (inr r) ↦ (r.1, r.2)
    ]

-- The acquired record at the path of the lease.
acquired_at :
    (s : Host) (l : FileLease) (run_owner task_id : String) (d d' : Dir)
    → acquire s l run_owner task_id d ≡ (none, d')
    → d' (lease_path s l.root run_owner task_id) ≡ some (s.encode (held_record s l task_id))
acquired_at s l run_owner task_id d d' p =
    (acquired_file s l run_owner task_id d d' p).1 _
    ∙ rw (eq_refl (lease_path s l.root run_owner task_id))

-- What a reader decodes there.
acquired_record :
    (s : Host) (l : FileLease) (run_owner task_id : String) (d d' : Dir) (content : String)
    → Decodes s l task_id
    → acquire s l run_owner task_id d ≡ (none, d')
    → d' (lease_path s l.root run_owner task_id) ≡ some content
    → s.decode content ≡ some (held_record s l task_id)
acquired_record s l run_owner task_id d d' content c p n =
    let a = acquired_at s l run_owner task_id d d' p in
    let same : s.encode (held_record s l task_id) ≡ content = cc in
    subst (λ z. s.decode z ≡ some (held_record s l task_id)) same (c)

held-is_mine :
    (s : Host) (l : FileLease) (task_id : String) (r : Option LeaseRecord)
    → r ≡ some (held_record s l task_id)
    → is_mine s l task_id r ≡ true
held-is_mine s l task_id r p =
    subst (λ z. is_mine s l task_id z ≡ true) (sym p) (rw (eq_refl l.owner_id, eq_refl task_id))

-- No error, and the files of `d`.
abbrev Restores : Dir → Option Error × Dir → Type 0
Restores d r = (r.0 ≡ none) × ((q : String) → r.1 q ≡ d q)

written_and_removed :
    (path q content : String) (d d' : Dir)
    → d path ≡ none
    → d' q ≡ (if path == q then some content else d q)
    → write path none d' q ≡ d q
written_and_removed path q content d d' n e = elim (Bool-cases (path == q)) [
  | inl m ↦ rw m (sym (subst (λ z. d z ≡ none) ((eq_iff path q).0 m) n))
  | inr m ↦ rw m (rw m at e)
]

-- A lease that was acquired is released by its holder, if the file can be read and removed, and all
-- files are as before the acquisition.
pub release-acquire :
    (s : Host) (l : FileLease) (run_owner task_id : String) (d d' : Dir)
    → Decodes s l task_id
    → s.read_error ≡ none
    → s.remove_error ≡ none
    → acquire s l run_owner task_id d ≡ (none, d')
    → ((release s l run_owner task_id d').0 ≡ none)
      × ((q : String) → (release s l run_owner task_id d').1 q ≡ d q)
unfolding release remove
release-acquire s l run_owner task_id d d' c r v p =
    let path = lease_path s l.root run_owner task_id in
    let a = acquired_at s l run_owner task_id d d' p in
    let (free, files) = acquired_file s l run_owner task_id d d' p in
    option-intro (Restores d) (d' path) (λ n. absurd (cc))
      λ content n.
        option-intro (Restores d) s.read_error
          (λ _.
            if-intro (Restores d) (not (is_mine s l task_id (s.decode content)))
              (λ m.
                let mine =
                  held-is_mine s l task_id (s.decode content)
                    (acquired_record s l run_owner task_id d d' content c p n) in
                absurd (ground (arith, mine, m)))
              λ m.
                option-intro (Restores d) s.remove_error
                  (λ _. (refl, λ q. written_and_removed path q _ d d' free (files q)))
                  (λ x w. absurd (cc)))
          (λ x w. absurd (cc))

-- The view that the lease's directory and an absolute path of the workspace agree.
pub record IsRooted (s : Host) (l : FileLease) : Type 0 where
  pub named : (l.workspace_root == "") ≡ false
  pub absolute_root : s.absolute l.workspace_root ≡ ok l.workspace_root
  pub root_of : l.root ≡ lease_dir s l.workspace_root

-- What an inspection by `m` reports of a lease that `l` holds.
abbrev pub Sees : Host → FileLease → FileLease → String → Result LeaseInspection → Type 0
Sees s l m task_id (err x) = ⊥
Sees s l m task_id (ok i) =
    (i.observed_state ≡ (if l.owner_id == m.owner_id then lease_owned else lease_locked))
    × (i.owner_id ≡ l.owner_id)
    × (i.observed_pid ≡ s.pid)

judge-Sees :
    (s : Host) (l m : FileLease) (res : LeaseInspection) (task_id : String) (r : Option LeaseRecord)
    → r ≡ some (held_record s l task_id)
    → res.owner_id ≡ m.owner_id
    → (l.owner_id == "") ≡ false
    → (task_id == "") ≡ false
    → Sees s l m task_id (judge_record s res task_id r)
unfolding judge_record
judge-Sees s l m res task_id none p o a b = absurd (cc)
judge-Sees s l m res task_id (some r) p o a b =
    let same : r ≡ held_record s l task_id = cc in
    subst (λ z. Sees s l m task_id (judge_record s res task_id (some z))) (sym same)
      (rw (a, b) (rw (o, eq_refl task_id) (ground arith, refl, refl)))

-- After `l` acquired the lease of a task, an inspection by any lease `m` of the same workspace and
-- with a readable file reports the owner and the process of `l`, as OWNED if `m` has the same owner
-- and as LOCKED otherwise.
pub inspect-acquire :
    (s : Host) (l m : FileLease) (run_owner task_id : String) (d d' : Dir)
    → Decodes s l task_id
    → s.read_error ≡ none
    → IsRooted s m
    → l.root ≡ m.root
    → (l.owner_id == "") ≡ false
    → (run_owner == "") ≡ false
    → (task_id == "") ≡ false
    → acquire s l run_owner task_id d ≡ (none, d')
    → Sees s l m task_id (inspect s m run_owner task_id d')
unfolding inspect inspect_lease inspect_file
inspect-acquire s l m run_owner task_id d d' c r i h a o b p =
    if-intro (Sees s l m task_id) (m.workspace_root == "" || run_owner == "" || task_id == "")
      (λ z. absurd (ground (arith, z, i.named, o, b)))
      λ _.
        result-intro (Sees s l m task_id) (s.absolute m.workspace_root)
          (λ x z. absurd (cc (i.absolute_root)))
          λ root z.
            let here : root ≡ m.workspace_root = cc (i.absolute_root) in
            let at : d' (lease_path s (lease_dir s root) run_owner task_id)
                ≡ some (s.encode (held_record s l task_id)) =
              rw (here, ← i.root_of, ← h) (acquired_at s l run_owner task_id d d' p) in
            option-intro (Sees s l m task_id)
              (d' (lease_path s (lease_dir s root) run_owner task_id)) (λ n. absurd (cc))
              λ content n.
                option-intro (Sees s l m task_id) s.read_error
                  (λ _.
                    judge-Sees s l m _ task_id (s.decode content)
                      (let same : s.encode (held_record s l task_id) ≡ content = cc in
                        subst (λ y. s.decode y ≡ some (held_record s l task_id)) same c)
                      refl a b)
                  (λ x w. absurd (cc))
