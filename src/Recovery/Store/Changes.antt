-- ===== src/Recovery/Store/Changes.antt =====
-- internal/recovery/checkpoint.go, `FileStore.Save`: what its changes do to the file of the store.
use agents_coworkers.Prelude.{
  ℕ, zero, suc, ◌≡◌, ◌≢◌, refl, ap, ◌∙◌, ◌⊎◌, inl, inr, false, String, ◌==◌, eq_refl, Option, none,
  some, List, [], ◌∷◌, ◌++◌, take, if-intro, option-intro,
}
use mathlib.Core.List.{append_assoc}
use agents_coworkers.Recovery.Errors.{Error}
use agents_coworkers.Recovery.Lease.{Dir, write}
use agents_coworkers.Recovery.Store.{
  FileChange, created, removed, written, renamed, apply, apply_all, StoreHost, written_parts,
  written_whole, fill_temp, cleanup, save_temp,
}

-- Changes of one file by its name.
abbrev pub Aside : String → List FileChange → Type 0
Aside temp [] = Unit
Aside temp (created p ∷ cs) = (p ≡ temp) × Aside temp cs
Aside temp (removed p ∷ cs) = (p ≡ temp) × Aside temp cs
Aside temp (written p text ∷ cs) = (p ≡ temp) × Aside temp cs
Aside temp (renamed p q ∷ cs) = ⊥

append-Aside :
    (temp : String) (cs ks : List FileChange)
    → Aside temp cs
    → Aside temp ks
    → Aside temp (cs ++ ks)
append-Aside temp [] ks a b = b
append-Aside temp (created p ∷ cs) ks (e, a) b = (e, append-Aside temp cs ks a b)
append-Aside temp (removed p ∷ cs) ks (e, a) b = (e, append-Aside temp cs ks a b)
append-Aside temp (written p t ∷ cs) ks (e, a) b = (e, append-Aside temp cs ks a b)
append-Aside temp (renamed p q ∷ cs) ks a b = elim a [ ]

apply_all-append :
    (cs ks : List FileChange) (d : Dir) → apply_all (cs ++ ks) d ≡ apply_all ks (apply_all cs d)
apply_all-append [] ks d = refl
apply_all-append (c ∷ cs) ks d = apply_all-append cs ks (apply c d)

module _ (temp path : String) (apart : (temp == path) ≡ false) where
  elsewhere : (p : String) (v : Option String) (d : Dir) → p ≡ temp → write p v d path ≡ d path
  elsewhere p v d e = rw (e, apart) refl

  -- Changes of the temporary file, to any of them, leave the other one.
  pub take-Aside :
      (n : ℕ) (cs : List FileChange) (d : Dir)
      → Aside temp cs
      → apply_all (take n cs) d path ≡ d path
  take-Aside zero cs d a = refl
  take-Aside (suc n) [] d a = refl
  take-Aside (suc n) (created p ∷ cs) d (e, a) = take-Aside n cs _ a ∙ elsewhere p _ d e
  take-Aside (suc n) (removed p ∷ cs) d (e, a) = take-Aside n cs _ a ∙ elsewhere p _ d e
  take-Aside (suc n) (written p t ∷ cs) d (e, a) = take-Aside n cs _ a ∙ elsewhere p _ d e
  take-Aside (suc n) (renamed p q ∷ cs) d a = elim a [ ]

  rename_lem :
      (d : Dir) (text : String) → d temp ≡ some text → apply (renamed temp path) d path ≡ some text
  rename_lem d text e =
      option-intro (λ (w : Dir). w path ≡ some text) (d temp) (λ n. absurd (cc))
        λ t q.
          let same_text : t ≡ text = cc in
          rw apart (rw (eq_refl path) (ap (λ (z : String). some z) same_text))

  later :
      {text : String} (p : String) (v : Option String) (d : Dir) {x : Option String}
      → p ≡ temp
      → (x ≡ write p v d path) ⊎ (x ≡ some text)
      → (x ≡ d path) ⊎ (x ≡ some text)
  later p v d e (inl z) = inl (z ∙ elsewhere p v d e)
  later p v d e (inr z) = inr z

  pub all-Aside : (cs : List FileChange) (d : Dir) → Aside temp cs → apply_all cs d path ≡ d path
  all-Aside [] d a = refl
  all-Aside (created p ∷ cs) d (e, a) = all-Aside cs _ a ∙ elsewhere p _ d e
  all-Aside (removed p ∷ cs) d (e, a) = all-Aside cs _ a ∙ elsewhere p _ d e
  all-Aside (written p t ∷ cs) d (e, a) = all-Aside cs _ a ∙ elsewhere p _ d e
  all-Aside (renamed p q ∷ cs) d a = elim a [ ]

  -- The rename is the one change of the file: up to it, it is as before, and from it on it is new.
  pub take-renamed :
      (n : ℕ) (a b : List FileChange) (d : Dir) (text : String)
      → Aside temp a
      → Aside temp b
      → apply_all a d temp ≡ some text
      → (apply_all (take n (a ++ (renamed temp path ∷ b))) d path ≡ d path)
        ⊎ (apply_all (take n (a ++ (renamed temp path ∷ b))) d path ≡ some text)
  take-renamed zero a b d text p q e = inl refl
  take-renamed (suc n) [] b d text p q e = inr (take-Aside n b _ q ∙ rename_lem d text e)
  take-renamed (suc n) (created f ∷ a) b d text (g, p) q e =
      later f _ d g (take-renamed n a b (apply (created f) d) text p q e)
  take-renamed (suc n) (removed f ∷ a) b d text (g, p) q e =
      later f _ d g (take-renamed n a b (apply (removed f) d) text p q e)
  take-renamed (suc n) (written f t ∷ a) b d text (g, p) q e =
      later f _ d g (take-renamed n a b (apply (written f t) d) text p q e)
  take-renamed (suc n) (renamed f g ∷ a) b d text p q e = elim p [ ]

  pub all-renamed :
      (a b : List FileChange) (d : Dir) (text : String)
      → Aside temp b
      → apply_all a d temp ≡ some text
      → apply_all (a ++ (renamed temp path ∷ b)) d path ≡ some text
  all-renamed a b d text q e =
      ap (λ (w : Dir). w path) (apply_all-append a (renamed temp path ∷ b) d)
      ∙ all-Aside b _ q
      ∙ rename_lem (apply_all a d) text e

-- Changes with their error: a failure that touches the temporary file only, or a success that
-- writes the text to it and renames it.
abbrev pub Saves : String → String → String → List FileChange × Option Error → Type 0
Saves temp path text r =
    ((r.1 ≢ none) × Aside temp (r.0))
    ⊎ ((r.1 ≡ none)
        × ((a : List FileChange) × ((b : List FileChange) × Aside temp a
              × Aside temp b
              × (r.0 ≡ a ++ (renamed temp path ∷ b))
              × ((d : Dir) → apply_all a d temp ≡ some text))))

module _ (h : StoreHost) (temp path : String) where
  parts-Aside : (ps : List String) → Aside temp (written_parts h path temp ps)
  parts-Aside [] = tt
  parts-Aside (p ∷ ps) = (refl, parts-Aside ps)

  whole-Aside : (text : String) → Aside temp (written_whole h path temp text)
  whole-Aside text =
      append-Aside temp (written_parts h path temp (h.parts text)) _ (parts-Aside (h.parts text))
        (refl, tt)

  whole_lem :
      (text : String) (d : Dir) → apply_all (written_whole h path temp text) d temp ≡ some text
  whole_lem text d =
      ap (λ (w : Dir). w temp)
        (apply_all-append (written_parts h path temp (h.parts text)) (written temp text ∷ []) d)
      ∙ rw (eq_refl temp) refl

  failed_lem :
      (text : String) (cs : List FileChange) (x : Error)
      → Aside temp cs
      → Saves temp path text (cs, some x)
  failed_lem text cs x a = inl (λ e. absurd (cc), a)

  fill_temp-Saves : (text : String) → Saves temp path text (fill_temp h path temp text)
  unfolding fill_temp
  fill_temp-Saves text =
      let P = Saves temp path text in
      let whole = whole-Aside text in
      option-intro P h.chmod_error
        (λ _.
          option-intro P h.write_error
            (λ _.
              option-intro P h.sync_error
                (λ _.
                  option-intro P h.close_error
                    (λ _.
                      option-intro P h.rename_error
                        (λ _. inr (refl, (_, ([], whole, tt, refl, whole_lem text))))
                        (λ x _. failed_lem text _ x whole))
                    (λ x _. failed_lem text _ x whole))
                (λ x _. failed_lem text _ x whole))
            (λ x _. failed_lem text _ x (parts-Aside (h.parts text))))
        (λ x _. failed_lem text _ x tt)

  cleanup-Aside : Aside temp (cleanup h path temp)
  cleanup-Aside = if-intro (Aside temp) h.removes (λ _. (refl, tt)) (λ _. tt)

  pub save_temp-Saves : (text : String) → Saves temp path text (save_temp h path temp text)
  save_temp-Saves text = around (fill_temp h path temp text) (fill_temp-Saves text)
    where
      around :
          (r : List FileChange × Option Error)
          → Saves temp path text r
          → Saves temp path text (created temp ∷ (r.0 ++ cleanup h path temp), r.1)
      around r (inl (e, a)) =
          inl (e, (refl, append-Aside temp (r.0) (cleanup h path temp) a cleanup-Aside))
      around r (inr (e, (a, (b, p, q, z, w)))) = inr (
        e,
        (
          created temp ∷ a,
          (
            b ++ cleanup h path temp,
            (refl, p),
            append-Aside temp b (cleanup h path temp) q cleanup-Aside,
            ap (λ l. created temp ∷ l)
                (ap (λ l. l ++ cleanup h path temp) z
                  ∙ append_assoc a (renamed temp path ∷ b) (cleanup h path temp)),
            λ d. w (apply (created temp) d),
          ),
        ),
      )
