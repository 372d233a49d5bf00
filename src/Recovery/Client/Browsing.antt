-- ===== src/Recovery/Client/Browsing.antt =====
-- internal/recovery/ao_http.go, `Observe` and `liveTurnIDs`: the pages of a conversation that AO shows,
-- from the newest on.
use Prim.Native.String.{◌++◌ as ◌<>◌}
use agents_coworkers.Prelude.{
  ℕ, zero, suc, ◌≡◌, refl, ◌⊎◌, inl, inr, false, not, String, Option, none, some, List, [], ◌∷◌,
  ◌++◌, ltb, nat_eq, if-intro, option-intro, subst, arith, if◌then◌else◌,
}
use agents_coworkers.Prelude.Int.{pos_part}
use agents_coworkers.Recovery.Errors.{Result, ok, err, result-intro}
use agents_coworkers.Recovery.Client.{ConversationSnapshot, Request, get, Trace, Server}
use agents_coworkers.Recovery.Client.Conversation.{did_not_advance, pages}

pub nat_eq→≡ : (a b : ℕ) → not (nat_eq a b) ≡ false → a ≡ b
nat_eq→≡ a b h = ground arith

-- An answer with the status 200.
pub ok_status :
    (s : Server) (t : Trace) (q : Request) (a : ℕ × String)
    → s.answer t q ≡ ok a
    → not (nat_eq (a.0) 200) ≡ false
    → s.answer t q ≡ ok (200, a.1)
ok_status s t q a e h = subst (λ k. s.answer t q ≡ ok (k, a.1)) (nat_eq→≡ (a.0) 200 h) e

module _ (s : Server) (id : String) where
  -- The request for the page before a sequence number, or for the newest one.
  abbrev pub page_request : ℕ → Request
  page_request before = get (
      ("/api/v1/sessions/" <> s.path_escape id)
      <> "/conversation?limit=500"
      <> (if ltb 0 before then "&beforeSequence=" <> s.decimal before else ""))

  -- AO answered it with status 200 and the page.
  abbrev pub Page : ℕ → Trace → ConversationSnapshot → Type 0
  Page before t p =
      (body : String) × (s.answer t (page_request before) ≡ ok (200, body))
      × (s.decode_snapshot body ≡ some p)

  -- AO showed these pages, each before the one that it showed last.
  abbrev pub Shown : ℕ → Trace → List ConversationSnapshot → Trace → Type 0
  Shown before t [] t' = t' ≡ t
  Shown before t (p ∷ ps) t' =
      Page before t p × Shown (pos_part p.oldest_sequence) (page_request before ∷ t) ps t'

module _ (s : Server) {A R : Type 0} (found : ConversationSnapshot → Option R)
    (add : A → ConversationSnapshot → A) (last : A → R) where
  abbrev pub NotFound : List ConversationSnapshot → Type 0
  NotFound [] = Unit
  NotFound (p ∷ ps) = (found p ≡ none) × NotFound ps

  abbrev pub gathered : A → List ConversationSnapshot → A
  gathered acc [] = acc
  gathered acc (p ∷ ps) = gathered (add acc p) ps

  -- The find of the last page that was shown, or the end of the conversation.
  abbrev pub Browsed : String → A → ℕ → Trace → Result R × Trace → Type 0
  Browsed id acc before t (err x, t') = Unit
  Browsed id acc before t (ok r, t') =
      (ps : List ConversationSnapshot) × (p : ConversationSnapshot) × Shown s id before t
        (ps ++ (p ∷ [])) t'
      × NotFound ps
      × ((found p ≡ some r)
          ⊎ ((found p ≡ none)
              × (p.has_more_before ≡ false)
              × (r ≡ last (gathered acc (ps ++ (p ∷ []))))))

  earlier :
      (id : String) (acc : A) (before : ℕ) (t : Trace) (p : ConversationSnapshot)
      (x : Result R × Trace)
      → Page s id before t p
      → found p ≡ none
      → Browsed id (add acc p) (pos_part p.oldest_sequence) (page_request s id before ∷ t) x
      → Browsed id acc before t x
  earlier id acc before t p (err y, t') a n b = tt
  earlier id acc before t p (ok r, t') a n (ps, q, c, m, e) = (p ∷ ps, q, (a, c), (n, m), e)

  pub pages-Browsed :
      (n : ℕ) (id : String) (acc : A) (before : ℕ) (t : Trace)
      → Browsed id acc before t (pages s found add last n id acc before t)
  unfolding pages
  pages-Browsed zero id acc before t = tt
  pages-Browsed (suc n) id acc before t =
      let P = Browsed id acc before t in
      let q = page_request s id before in
      result-intro P (s.answer t q) (λ x _. tt)
        λ a e.
          if-intro P (not (nat_eq (a.0) 200)) (λ _. tt)
            λ h.
              let k = ok_status s t q a e h in
              option-intro P (s.decode_snapshot (a.1)) (λ _. tt)
                λ p d.
                  option-intro P (found p)
                    (λ f.
                      if-intro P (not p.has_more_before)
                        (λ m. ([], p, ((a.1, k, d), refl), tt, inr (f, ground (arith, m), refl)))
                        λ _.
                          if-intro P (did_not_advance s found add last p before) (λ _. tt)
                            λ _.
                              earlier id acc before t p _ (a.1, k, d) f
                                (pages-Browsed n id (add acc p) (pos_part p.oldest_sequence)
                                  (q ∷ t)))
                    (λ r f. ([], p, ((a.1, k, d), refl), tt, inl f))
