-- ===== src/Recovery/Store/Refines.antt =====
-- internal/recovery/checkpoint.go, `FileStore`: a store of one file is the store that the dispatcher
-- sees, also after a crash in the middle of a save.
use agents_coworkers.Prelude.{
  ℕ, zero, suc, ◌≡◌, ◌≢◌, refl, sym, ap, subst, ◌∙◌, ◌⊎◌, inl, inr, false, String, ◌==◌, Option,
  none, some, List, [], take, option-intro,
}
use agents_coworkers.Recovery.Errors.{Error, other, Result, ok, err, result-intro}
use agents_coworkers.Recovery.Checkpoint.{Checkpoint, validate}
use agents_coworkers.Recovery.World.{Environment, World, log, save_failed, commit, load, save}
use agents_coworkers.Recovery.Lease.{Dir}
use agents_coworkers.Recovery.Store.{
  FileChange, apply_all, StoreHost, decoded, load_file, save_temp, save_valid, save_file,
}
use agents_coworkers.Recovery.Store.Changes.{
  Saves, take-Aside, all-Aside, take-renamed, all-renamed, save_temp-Saves,
}

-- The record of the world is the file's.
abbrev pub Stores : StoreHost → String → Dir → World → Type 0
Stores h path d w = (text : String) × (d path ≡ some text) × (h.decode text ≡ some w.disk)

-- JSON gives the record back, and a temporary file has a name of its own.
pub record Reliable (h : StoreHost) (path : String) (c : Checkpoint) : Type 0 where
  pub codec : (text : String) → h.encode c ≡ some text → h.decode text ≡ some c
  pub apart : (temp : String) → h.temp_path ≡ ok temp → (temp == path) ≡ false

-- A failure that leaves the file, or a success with its text there at the end; in the middle it is
-- as before or as at the end.
abbrev Commits : StoreHost → String → Checkpoint → Dir → List FileChange × Option Error → Type 0
Commits h path c d r =
    ((r.1 ≢ none)
      × (apply_all (r.0) d path ≡ d path)
      × ((n : ℕ) → apply_all (take n (r.0)) d path ≡ d path))
    ⊎ ((r.1 ≡ none)
        × ((text : String) × (h.encode c ≡ some text)
            × (apply_all (r.0) d path ≡ some text)
            × ((n : ℕ)
                → (apply_all (take n (r.0)) d path ≡ d path)
                  ⊎ (apply_all (take n (r.0)) d path ≡ some text))))

module _ (h : StoreHost) (path : String) (c : Checkpoint) (d : Dir) where
  nothing_done : (x : Error) → Commits h path c d ([], some x)
  nothing_done x = inl (λ e. absurd (cc), refl, λ n. none_taken n)
    where
      none_taken : (n : ℕ) → apply_all (take n []) d path ≡ d path
      none_taken zero = refl
      none_taken (suc n) = refl

  saved_lem :
      (temp text : String) (r : List FileChange × Option Error)
      → (temp == path) ≡ false
      → h.encode c ≡ some text
      → Saves temp path text r
      → Commits h path c d r
  saved_lem temp text r f e (inl (x, a)) =
      inl (x, all-Aside temp path f (r.0) d a, λ n. take-Aside temp path f n (r.0) d a)
  saved_lem temp text r f e (inr (x, (a, (b, p, q, z, w)))) = inr (
    x,
    (
      text,
      e,
      ap (λ l. apply_all l d path) z ∙ all-renamed temp path f a b d text q (w d),
      λ n.
          subst
            (λ l.
              (apply_all (take n l) d path ≡ d path) ⊎ (apply_all (take n l) d path ≡ some text))
            (sym z) (take-renamed temp path f n a b d text p q (w d)),
    ),
  )

  save_valid-Commits : Reliable h path c → Commits h path c d (save_valid h path c)
  unfolding save_valid
  save_valid-Commits k =
      let P = Commits h path c d in
      option-intro P (h.encode c) (λ _. nothing_done _)
        λ text e.
          option-intro P h.mkdir_error
            (λ _.
              result-intro P h.temp_path (λ x _. nothing_done x)
                λ temp t.
                  saved_lem temp text (save_temp h path temp text) (k.apart temp t) e
                    (save_temp-Saves h temp path text))
            (λ x _. nothing_done x)

-- What a file store and the dispatcher's store have in common at a record.
pub record Refines (h : StoreHost) (path : String) (e : Environment) (c : Checkpoint) (d : Dir)
    (w : World) : Type 0 where
  pub loads : h.read_error ≡ e.load_error w.trace → load_file h path d ≡ (load e w).0
  pub saves_error : (save_file h path c).1 ≡ (save e c w).0
  pub saves : Stores h path (apply_all (save_file h path c).0 d) ((save e c w).1)
  pub crashes :
      (n : ℕ)
      → Stores h path (apply_all (take n (save_file h path c).0) d) w
        ⊎ ((validate c ≡ none)
            × Stores h path (apply_all (take n (save_file h path c).0) d) (record w { disk = c }))

module _ (h : StoreHost) (path : String) (e : Environment) (c : Checkpoint) (d : Dir)
    (w : World) where
  load_file_lem :
      Stores h path d w → h.read_error ≡ e.load_error w.trace → load_file h path d ≡ (load e w).0
  unfolding load_file load
  load_file_lem (text, p, q) r =
      ap
        (λ (o : Option Error). elim o [
          | some x ↦ err x
          | none ↦ elim (d path) [
            | none ↦ err (other "file does not exist")
            | some t ↦ decoded h path (h.decode t)
          ]
        ])
        r
      ∙ ap (λ (z : Result Checkpoint). elim (e.load_error w.trace) [ some x ↦ err x | none ↦ z ])
          (ap
              (λ (o : Option String). elim o [
                | none ↦ err (other "file does not exist")
                | some t ↦ decoded h path (h.decode t)
              ])
              p
            ∙ ap (λ z. decoded h path z) q)

  kept : (x : Dir) → x path ≡ d path → Stores h path d w → Stores h path x w
  kept x p (text, q, r) = (text, p ∙ q, r)

  -- The saves agree, also in the middle.
  abbrev Agrees : List FileChange × Option Error → Option Error × World → Type 0
  Agrees r x =
      (r.1 ≡ x.0)
      × Stores h path (apply_all (r.0) d) (x.1)
      × ((n : ℕ)
          → Stores h path (apply_all (take n (r.0)) d) w
            ⊎ ((validate c ≡ none)
                × Stores h path (apply_all (take n (r.0)) d) (record w { disk = c })))

  committed :
      (r : List FileChange × Option Error)
      → validate c ≡ none
      → Reliable h path c
      → Stores h path d w
      → Commits h path c d r
      → Agrees r (commit c w (r.1))
  unfolding commit
  committed (cs, some x) v k s (inl (n, a, t)) =
      (refl, kept (apply_all cs d) a s, λ m. inl (kept (apply_all (take m cs) d) (t m) s))
  committed (cs, some x) v k s (inr (n, z)) = absurd (cc)
  committed (cs, none) v k s (inl (n, a, t)) = absurd (n refl)
  committed (cs, none) v k s (inr (n, (text, q, a, t))) =
      (refl, (text, a, k.codec text q), λ m. either m (t m))
    where
      either :
          (m : ℕ)
          → (apply_all (take m cs) d path ≡ d path) ⊎ (apply_all (take m cs) d path ≡ some text)
          → Stores h path (apply_all (take m cs) d) w
            ⊎ ((validate c ≡ none)
                × Stores h path (apply_all (take m cs) d) (record w { disk = c }))
      either m (inl z) = inl (kept (apply_all (take m cs) d) z s)
      either m (inr z) = inr (v, (text, z, k.codec text q))

  agreed :
      (o : Option Error)
      → validate c ≡ o
      → Reliable h path c
      → e.save_error w.trace c ≡ (save_valid h path c).1
      → Stores h path d w
      → Agrees
          (elim o [ some x ↦ ([], some x) | none ↦ save_valid h path c ])
          (elim o [
            | some x ↦ (some x, log (save_failed c) w)
            | none ↦ commit c w (e.save_error w.trace c)
          ])
  agreed (some x) v k f s = (refl, s, λ n. inl (kept (apply_all (take n []) d) (none_taken n) s))
    where
      none_taken : (n : ℕ) → apply_all (take n []) d path ≡ d path
      none_taken zero = refl
      none_taken (suc n) = refl
  agreed none v k f s =
      subst (λ x. Agrees (save_valid h path c) (commit c w x)) (sym f)
        (committed (save_valid h path c) v k s (save_valid-Commits h path c d k))

  -- A file store whose answers are the environment's does what the dispatcher is told of its store.
  -- With the world's record in its file, loading gives the same result, if the read fails as the
  -- environment says; saving gives the same error and leaves the world's new record in the file; and
  -- after any first part of the changes of a save, as a crash leaves them, the file has the old record
  -- in full, or the new one if that is valid. JSON has to give the record back, and the temporary file
  -- to have a name of its own.
  pub save_file-Refines :
      Reliable h path c
      → e.save_error w.trace c ≡ (save_valid h path c).1
      → Stores h path d w
      → Refines h path e c d w
  unfolding save_file save
  save_file-Refines k f s =
      let (saved, stored, crashed) = agreed (validate c) refl k f s in
      record { loads = load_file_lem s; saves_error = saved; saves = stored; crashes = crashed }
