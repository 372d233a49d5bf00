-- ===== src/Control/Manifest/Writing.antt =====
-- internal/workforce/control/manifest.go, `WriteManifestAtomic`, over a directory of files. What
-- fails in the operating system, the JSON encoder, the random name of the temporary file and what
-- other processes do before the rename are parameters.
use agents_coworkers.Prelude.{
  ◌≡◌, ◌≢◌, refl, ◌⊎◌, inl, inr, Bool, true, false, String, ◌==◌, eq_refl, Option, none, some,
  if◌then◌else◌, if-intro, option-intro, subst, ◌∙◌,
}
use agents_coworkers.Prelude.Text.{is_blank}
use agents_coworkers.Recovery.Errors.{Error, other, Result, ok, err, result-intro}
use agents_coworkers.Recovery.Lease.{Dir, write}
use agents_coworkers.Control.Types.{RunManifest}
use agents_coworkers.Control.Manifest.{Reader, read_manifest}
use agents_coworkers.Control.Manifest.Matching.{is_exact_binding_match}

pub record Disk : Type 0 where
  pub reader : Reader
  pub absolute : String → Result String
  pub temp_path : String → String
  pub encode : RunManifest → Option String
  -- a failure of `os.Stat` other than that the file does not exist
  pub stat_error : Option Error
  pub read_error : Option Error
  pub mkdir_error : Option Error
  pub open_error : Option Error
  -- a failed write, sync or close
  pub write_error : Option Error
  pub rename_error : Option Error
  pub remove_error : Option Error
  pub meanwhile : Dir → Dir

module _ (k : Disk) (m : RunManifest) where
  abbrev pub content_at : String → Dir → Result String
  content_at path d = elim (d path) [
    | none ↦ err (other "file does not exist")
    | some text ↦ elim k.read_error [ some x ↦ err x | none ↦ ok text ]
  ]

  abbrev pub to_option : Result RunManifest → Option RunManifest
  to_option (err x) = none
  to_option (ok e) = some e

  -- The document at the path is valid and binds as `m` does.
  abbrev pub matches_at : String → Dir → Bool
  matches_at path d =
      is_exact_binding_match k.reader.host
        (to_option (read_manifest k.reader path (content_at path d))) (some m)

  -- `_ = os.Remove(tmpPath)`
  abbrev pub discard : String → Dir → Dir
  discard path d = elim k.remove_error [ none ↦ write (k.temp_path path) none d | some x ↦ d ]

  -- The rename and what follows it if it fails.
  unfoldable pub rename : String → String → Dir → Option Error × Dir
  rename path text d = elim k.rename_error [
    | none ↦ (none, write (k.temp_path path) none (write path (some text) d))
    | some x ↦ if matches_at path d then (none, discard path d) else (some x, discard path d)
  ]

  unfoldable pub write_temp : String → String → Dir → Option Error × Dir
  write_temp path text d = elim (d (k.temp_path path)) [
    | some c ↦ (some (other "create temp manifest file"), d)
    | none ↦ elim k.open_error [
      | some x ↦ (some x, d)
      | none ↦ elim k.write_error [
        | some x ↦ (some x, discard path (write (k.temp_path path) (some text) d))
        | none ↦ rename path text (k.meanwhile (write (k.temp_path path) (some text) d))
      ]
    ]
  ]

  unfoldable pub write_new : String → Dir → Option Error × Dir
  write_new path d = elim (k.encode m) [
    | none ↦ (some (other "marshal manifest json"), d)
    | some text ↦ elim k.mkdir_error [ some x ↦ (some x, d) | none ↦ write_temp path text d ]
  ]

  unfoldable pub keep_existing : String → Dir → Option Error × Dir
  keep_existing path d =
      if matches_at path d
      then (none, d)
      else (some (other "manifest already exists, invalid or with mismatched bindings"), d)

  unfoldable pub write_at : String → Dir → Option Error × Dir
  write_at path d = elim k.stat_error [
    | some x ↦ (some x, d)
    | none ↦ elim (d path) [ some c ↦ keep_existing path d | none ↦ write_new path d ]
  ]

  -- `WriteManifestAtomic`
  unfoldable pub write_manifest_atomic : String → Dir → Option Error × Dir
  write_manifest_atomic target d =
      if is_blank target
      then (some (other "manifest target path is required"), d)
      else elim (k.absolute target) [ err x ↦ (some x, d) | ok path ↦ write_at path d ]

-- The end of a rename to `path`, where others have left `e`.
abbrev pub Renames : Disk → RunManifest → String → String → Dir → Option Error × Dir → Type 0
Renames k m path text e r =
    ((r.0 ≡ none) × (r.1 path ≡ some text))
    ⊎ ((r.1 path ≡ e path) × (r.0 ≡ none → matches_at k m path e ≡ true))

-- The end of a writing at `path`. The file there is as it was, with every other file if it existed,
-- and success means that it binds alike. Or there was none, and the new document was put there, or
-- the rename failed and left what others had put there, and success means that it binds alike.
abbrev pub Writes : Disk → RunManifest → String → Dir → Option Error × Dir → Type 0
Writes k m path d r =
    ((r.1 path ≡ d path) × (d path ≢ none → r.1 ≡ d) × (r.0 ≡ none → matches_at k m path d ≡ true))
    ⊎ ((d path ≡ none)
        × (text : String) × (k.encode m ≡ some text)
        × Renames k m path text (k.meanwhile (write (k.temp_path path) (some text) d)) r)

refused :
    (k : Disk) (m : RunManifest) (path : String) (d : Dir) (x : Error)
    → Writes k m path d (some x, d)
refused k m path d x = inl (refl, λ _. refl, λ e. absurd (cc))

write_elsewhere :
    (p q : String) (v : Option String) (d : Dir) → (p == q) ≡ false → write p v d q ≡ d q
write_elsewhere p q v d h = rw h

write_here : (p : String) (v : Option String) (d : Dir) → write p v d p ≡ v
write_here p v d = rw (eq_refl p)

discard_elsewhere :
    (k : Disk) (m : RunManifest) (path : String) (d : Dir)
    → (k.temp_path path == path) ≡ false
    → discard k m path d path ≡ d path
discard_elsewhere k m path d h =
    option-intro (λ (e : Dir). e path ≡ d path) k.remove_error
      (λ _. write_elsewhere (k.temp_path path) path none d h) (λ x _. refl)

rename-Renames :
    (k : Disk) (m : RunManifest) (path text : String) (e : Dir)
    → (k.temp_path path == path) ≡ false
    → Renames k m path text e (rename k m path text e)
unfolding rename
rename-Renames k m path text e h =
    option-intro (Renames k m path text e) k.rename_error
      (λ _. inl (
        refl,
        write_elsewhere (k.temp_path path) path none (write path (some text) e) h
            ∙ write_here path (some text) e,
      ))
      λ x _.
        if-intro (Renames k m path text e) (matches_at k m path e)
          (λ c. inr (discard_elsewhere k m path e h, λ _. c))
          (λ c. inr (discard_elsewhere k m path e h, λ n. absurd (cc)))

write_temp-Writes :
    (k : Disk) (m : RunManifest) (path text : String) (d : Dir)
    → (k.temp_path path == path) ≡ false
    → d path ≡ none
    → k.encode m ≡ some text
    → Writes k m path d (write_temp k m path text d)
unfolding write_temp
write_temp-Writes k m path text d h n e =
    option-intro (Writes k m path d) (d (k.temp_path path))
      (λ _.
        option-intro (Writes k m path d) k.open_error
          (λ _.
            option-intro (Writes k m path d) k.write_error
              (λ _. inr (n, text, e, rename-Renames k m path text _ h))
              λ x _. inl (
                discard_elsewhere k m path _ h
                    ∙ write_elsewhere (k.temp_path path) path (some text) d h,
                λ z. absurd (z n),
                λ z. absurd (cc),
              ))
          (λ x _. refused k m path d x))
      (λ c _. refused k m path d _)

write_at-Writes :
    (k : Disk) (m : RunManifest) (path : String) (d : Dir)
    → (k.temp_path path == path) ≡ false
    → Writes k m path d (write_at k m path d)
unfolding write_at keep_existing write_new
write_at-Writes k m path d h =
    option-intro (Writes k m path d) k.stat_error
      (λ _.
        option-intro (Writes k m path d) (d path)
          (λ n.
            option-intro (Writes k m path d) (k.encode m) (λ _. refused k m path d _)
              λ text e.
                option-intro (Writes k m path d) k.mkdir_error
                  (λ _. write_temp-Writes k m path text d h n e) (λ x _. refused k m path d x))
          λ c _.
            if-intro (Writes k m path d) (matches_at k m path d)
              (λ b. inl (refl, λ _. refl, λ _. b)) (λ _. refused k m path d _))
      (λ x _. refused k m path d x)

-- Writing a document at a path whose temporary file has another path ends in one of two ways. The
-- file is as it was, as is every other file if it existed, and the writing succeeds only if it is
-- valid and binds as the new document does; or there was no file, and the new document stands
-- there in full, or else the rename failed and left the file that others had put there, with
-- success only if that one is valid and binds alike.
pub write_manifest_atomic-Writes :
    (k : Disk) (m : RunManifest) (target path : String) (d : Dir)
    → k.absolute target ≡ ok path
    → (k.temp_path path == path) ≡ false
    → Writes k m path d (write_manifest_atomic k m target d)
unfolding write_manifest_atomic
write_manifest_atomic-Writes k m target path d a h =
    if-intro (Writes k m path d) (is_blank target) (λ _. refused k m path d _)
      λ _.
        result-intro (Writes k m path d) (k.absolute target) (λ x _. refused k m path d x)
          λ p e.
            let same_path : path ≡ p = cc in
            subst (λ (q : String). Writes k m path d (write_at k m q d)) same_path
              (write_at-Writes k m path d h)
