-- ===== src/Control/Attach/Results.antt =====
-- internal/workforce/control/attach.go, `RunAttach`: its result, its exit code and the file that it
-- leaves.
use agents_coworkers.Prelude.{
  ℕ, ◌≡◌, ◌≢◌, refl, sym, ap, subst, ◌∙◌, ◌⊎◌, inl, inr, Option, none, some,
}
use agents_coworkers.Recovery.Errors.{Error}
use agents_coworkers.Recovery.Lease.{Dir}
use agents_coworkers.Control.Types.{RunManifest}
use agents_coworkers.Control.Manifest.Writing.{write_manifest_atomic}
use agents_coworkers.Control.Attempt.{Attempt, done, exits, Ends}
use agents_coworkers.Control.Attach.{AttachOptions, Site, Findings}
use agents_coworkers.Control.Attach.Reading.{gather}
use agents_coworkers.Control.Attach.Gathered.{Gathered, gather-Gathered}
use agents_coworkers.Control.Attach.Publishing.{
  manifest_of, reread, or_new, publish, conclude, run_attach,
}

module _ (h : Site) (o : AttachOptions) (d : Dir) where
  -- An early return, with the files as they were, or a manifest that was made of what was found, and
  -- its writing.
  abbrev pub Concludes : Option RunManifest × ℕ × Dir → Type 0
  Concludes r =
      ((r.0 ≡ none) × ((r.1 ≡ 2) ⊎ (r.1 ≡ 3)) × (r.2 ≡ d))
      ⊎ ((f : Findings) × Gathered h o d f
          × (gather h o d ≡ done f)
          × (r
              ≡ publish h o (manifest_of h f)
                  (write_manifest_atomic h.disk (manifest_of h f) o.manifest_path d)))

  concluded :
      (a : Attempt Findings)
      → gather h o d ≡ a
      → Ends (Gathered h o d) a
      → Concludes (conclude h o d a)
  concluded (done f) n g = inr (f, g, n, refl)
  concluded (exits c) n e = inl (refl, e, refl)

  run_attach-Concludes : Concludes (run_attach h o d)
  unfolding run_attach
  run_attach-Concludes = concluded (gather h o d) refl (gather-Gathered h o d)

  -- A code for each end, and the files where there is no manifest.
  abbrev pub Exits : Option RunManifest × ℕ × Dir → Type 0
  Exits r =
      ((m : RunManifest) × (r.0 ≡ some m) × (r.1 ≡ 0))
      ⊎ ((r.0 ≡ none)
          × ((r.1 ≡ 2) ⊎ (r.1 ≡ 3))
          × ((r.2 ≡ d)
              ⊎ ((f : Findings) × Gathered h o d f
                  × (write_manifest_atomic h.disk (manifest_of h f) o.manifest_path d).0 ≢ none
                  × (r.2 ≡ (write_manifest_atomic h.disk (manifest_of h f) o.manifest_path d).1))))

  published_exit :
      (f : Findings) (w : Option Error × Dir)
      → Gathered h o d f
      → w ≡ write_manifest_atomic h.disk (manifest_of h f) o.manifest_path d
      → Exits (publish h o (manifest_of h f) w)
  published_exit f (some x, e) g p =
      inr
        (refl, inl refl, inr (f, g, subst (λ z. z.0 ≢ none) p (λ z. absurd (cc)), ap (λ z. z.1) p))
  published_exit f (none, e) g p = inl (_, refl, refl)

  -- Attaching ends with a manifest and the exit code 0, or with none and the code 2 or 3. Without a
  -- manifest, either every file is as it was, or all steps before the writing of the manifest
  -- succeeded, the writing failed, and the files are as it left them.
  pub run_attach-Exits : Exits (run_attach h o d)
  run_attach-Exits = elim run_attach-Concludes [
    | inl (n, c, e) ↦ inr (n, c, inl e)
    | inr (f, g, n, e) ↦ subst Exits (sym e) (published_exit f _ g refl)
  ]

  -- The findings behind a manifest, and the writing that ended with the files `e`.
  abbrev pub Made : RunManifest → Dir → Type 0
  Made m e =
      (f : Findings) × Gathered h o d f
      × (gather h o d ≡ done f)
      × (write_manifest_atomic h.disk (manifest_of h f) o.manifest_path d ≡ (none, e))
      × (m
          ≡ or_new h (manifest_of h f)
              (reread h o (manifest_of h f) e (h.disk.absolute o.manifest_path)))

  published-Made :
      (f : Findings) (w : Option Error × Dir) (m : RunManifest) (c : ℕ) (e : Dir)
      → Gathered h o d f
      → gather h o d ≡ done f
      → write_manifest_atomic h.disk (manifest_of h f) o.manifest_path d ≡ w
      → publish h o (manifest_of h f) w ≡ (some m, c, e)
      → Made m e
  published-Made f (some x, e') m c e g n p q = absurd (cc (ap (λ z. z.0) q))
  published-Made f (none, e') m c e g n p q =
      let files : e' ≡ e = ap (λ z. z.2) q in
      let made : or_new h m (publish h o (manifest_of h f) (none, e')).0 ≡ m =
        ap (λ z. or_new h m (z.0)) q in
      (
        f,
        g,
        n,
        p ∙ ap (λ (z : Dir). (none, z)) files,
        sym made
            ∙ ap
                (λ z.
                  or_new h (manifest_of h f)
                    (reread h o (manifest_of h f) z (h.disk.absolute o.manifest_path)))
                files,
      )

  pub run_attach-Made :
      (m : RunManifest) (c : ℕ) (e : Dir) → run_attach h o d ≡ (some m, c, e) → Made m e
  run_attach-Made m c e q = elim run_attach-Concludes [
    | inl (n, k, z) ↦ absurd (cc (ap (λ z. z.0) q))
    | inr (f, g, n, z) ↦ published-Made f _ m c e g n refl (sym z ∙ q)
  ]
