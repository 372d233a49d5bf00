-- ===== src/Control/Attach/Persisted.antt =====
-- internal/workforce/control/attach.go, `RunAttach`: the manifest that it returns and the one in the
-- file.
use agents_coworkers.Prelude.{
  ℕ, ◌≡◌, refl, sym, ap, subst, ◌∙◌, inl, inr, true, false, String, ◌==◌, Option, none, some,
}
use agents_coworkers.Prelude.Text.{is_blank}
use agents_coworkers.Recovery.Errors.{Error, other, Result, ok, err}
use agents_coworkers.Recovery.Lease.{Dir, write}
use agents_coworkers.Control.Types.{RunManifest}
use agents_coworkers.Control.Manifest.{Reader, read_manifest}
use agents_coworkers.Control.Manifest.Matching.{is_exact_binding_match}
use agents_coworkers.Control.Manifest.WellFormed.{WellFormed}
use agents_coworkers.Control.Manifest.Accepted.{read_manifest-WellFormed}
use agents_coworkers.Control.Manifest.Complete.{WellFormed-read_manifest}
use agents_coworkers.Control.Manifest.Writing.{
  content_at, to_option, Writes, write_manifest_atomic-Writes,
}
use agents_coworkers.Control.Attempt.{done}
use agents_coworkers.Control.Attach.{AttachOptions, Site, Findings}
use agents_coworkers.Control.Attach.Reading.{gather}
use agents_coworkers.Control.Attach.Soundness.{Sound}
use agents_coworkers.Control.Attach.Accepted.{Gathered-WellFormed}
use agents_coworkers.Control.Attach.Publishing.{manifest_of, reread, or_new, run_attach}
use agents_coworkers.Control.Attach.Results.{run_attach-Made}

-- What attaching relies on where its manifest is written: the file's path, which is not the
-- temporary one, a JSON codec that gives the document back, and reads that do not fail.
pub record Writable (h : Site) (o : AttachOptions) (d : Dir) (path : String) : Type 0 where
  pub path_of : h.disk.absolute o.manifest_path ≡ ok path
  pub path_named : is_blank path ≡ false
  pub flag_named : is_blank o.manifest_path ≡ false
  pub temp_apart : (h.disk.temp_path path == path) ≡ false
  pub codec :
      (f : Findings) (text : String)
      → gather h o d ≡ done f
      → h.disk.encode (manifest_of h f) ≡ some text
      → h.disk.reader.decode text ≡ some (manifest_of h f, true)
  pub readable : h.disk.read_error ≡ none

module _ (h : Site) (m : RunManifest) (path : String) where
  -- The document at the path can be read.
  abbrev Reads : Dir → Type 0
  Reads e =
      (x : RunManifest) × (read_manifest h.disk.reader path (content_at h.disk m path e) ≡ ok x)

  matched_lem :
      (r : Result RunManifest)
      → is_exact_binding_match h.disk.reader.host (to_option h.disk m r) (some m) ≡ true
      → (x : RunManifest) × (r ≡ ok x)
  unfolding is_exact_binding_match
  matched_lem (err x) e = absurd (cc)
  matched_lem (ok x) e = (x, refl)

  same_file_lem : (d e : Dir) → d path ≡ e path → Reads d → Reads e
  same_file_lem d e p (x, r) = (
    x,
    subst
        (λ (t : Option String).
          read_manifest h.disk.reader path (elim t [
            | none ↦ err (other "file does not exist")
            | some text ↦ elim h.disk.read_error [ some x ↦ err x | none ↦ ok text ]
          ])
          ≡ ok x)
        p r,
  )

  written_lem :
      (text : String) (e : Dir)
      → h.disk.read_error ≡ none
      → is_blank path ≡ false
      → h.disk.reader.decode text ≡ some (m, true)
      → WellFormed h.disk.reader m
      → e path ≡ some text
      → Reads e
  written_lem text e n b c w p =
      let content : content_at h.disk m path e ≡ ok text =
        subst
          (λ (o : Option String).
            elim o [
              | none ↦ err (other "file does not exist")
              | some t ↦ elim h.disk.read_error [ some x ↦ err x | none ↦ ok t ]
            ]
            ≡ ok text)
          (sym p)
          (subst (λ z. elim z [ some x ↦ err x | none ↦ ok text ] ≡ ok text) (sym n) refl) in
      (
        m,
        ap (λ z. read_manifest h.disk.reader path z) content
            ∙ WellFormed-read_manifest h.disk.reader path text m b c w,
      )

  -- After a successful writing the document can be read.
  Writes-Reads :
      (d : Dir) (r : Option Error × Dir)
      → h.disk.read_error ≡ none
      → is_blank path ≡ false
      → ((text : String) → h.disk.encode m ≡ some text → h.disk.reader.decode text ≡ some (m, true))
      → WellFormed h.disk.reader m
      → Writes h.disk m path d r
      → r.0 ≡ none
      → Reads (r.1)
  Writes-Reads d r n b k w (inl (p, _, c)) z = same_file_lem d (r.1) (sym p) (matched_lem _ (c z))
  Writes-Reads d r n b k w (inr (_, text, e, inl (_, p))) z =
      written_lem text (r.1) n b (k text e) w p
  Writes-Reads d r n b k w (inr (_, text, e, inr (p, c))) z =
      same_file_lem (h.disk.meanwhile (write (h.disk.temp_path path) (some text) d)) (r.1) (sym p)
        (matched_lem _ (c z))

  chosen_lem :
      (c : Result String) (a : RunManifest)
      → a ≡ or_new h m (to_option h.disk m (read_manifest h.disk.reader path c))
      → (x : RunManifest) × (read_manifest h.disk.reader path c ≡ ok x)
      → read_manifest h.disk.reader path c ≡ ok a
  chosen_lem c a e (x, r) =
      r ∙ ap (λ (z : RunManifest). ok z) (sym (e ∙ ap (λ z. or_new h m (to_option h.disk m z)) r))

-- `ReadManifest` looks at a path only to see that there is one.
any_path_lem :
    (h : Reader) (p q : String) (c : Result String)
    → is_blank p ≡ false
    → is_blank q ≡ false
    → read_manifest h p c ≡ read_manifest h q c
unfolding read_manifest
any_path_lem h p q c a b = rw (a, b) refl

-- Attaching that returns a manifest, where the parameters do what their documentation says, and
-- the manifest's path is another than its temporary file's, its JSON is decoded as it was encoded
-- and its file can be read: what it returns is what `ReadManifest` then reads from the file, so it is
-- well formed.
pub run_attach-read_manifest :
    (h : Site) (o : AttachOptions) (d e : Dir) (path : String) (m : RunManifest) (c : ℕ)
    → Sound h d
    → Writable h o d path
    → run_attach h o d ≡ (some m, c, e)
    → (read_manifest h.disk.reader path (content_at h.disk m path e) ≡ ok m)
      × WellFormed h.disk.reader m
run_attach-read_manifest h o d e path m c s k q =
    let (f, g, n, w, a) = run_attach-Made h o d m c e q in
    let doc = manifest_of h f in
    let ended : Writes h.disk doc path d (none, e) =
      subst (Writes h.disk doc path d) w
        (write_manifest_atomic-Writes h.disk doc o.manifest_path path d k.path_of k.temp_apart) in
    let reads =
      Writes-Reads h doc path d (none, e) k.readable k.path_named (λ t. k.codec f t n)
        (Gathered-WellFormed h o d f s g) ended refl in
    let returned : m
        ≡ or_new h doc (
            to_option h.disk doc
              (read_manifest h.disk.reader path (content_at h.disk doc path e))) =
      a
      ∙ ap (λ z. or_new h doc (reread h o doc e z)) k.path_of
      ∙ ap (λ z. or_new h doc (to_option h.disk doc z))
          (any_path_lem h.disk.reader o.manifest_path path (content_at h.disk doc path e)
            k.flag_named k.path_named) in
    let found = chosen_lem h doc path _ m returned reads in
    (found, read_manifest-WellFormed h.disk.reader path _ m found)
