-- ===== src/Recovery/Client/Observing.antt =====
-- internal/recovery/ao_http.go: what the reading of a conversation asks and what it can find.
use Prim.Native.String.{◌++◌ as ◌<>◌}
use agents_coworkers.Prelude.{
  ℕ, zero, suc, ◌+◌, ◌≤◌, ◌≡◌, refl, ap, ◌⊎◌, inl, inr, true, false, not, String, ◌==◌, eq_iff,
  Option, none, List, [], ◌∷◌, ◌++◌, nat_eq, length, arith, if-intro, option-intro, subst,
}
use mathlib.Core.List.{Memᴰ}
use agents_coworkers.Prelude.Int.{pos_part}
use agents_coworkers.Recovery.Errors.{Result, ok, err, result-intro}
use agents_coworkers.Recovery.World.{DeliveryState, Observation}
use agents_coworkers.Recovery.Client.{Turn, ConversationSnapshot, Request, get, post, Trace, Server}
use agents_coworkers.Recovery.Client.Conversation.{
  page_path, did_not_advance, pages, no_turn, search_page, observe_session, observe, live_turn_ids,
}
use agents_coworkers.Recovery.Client.Browsing.{
  nat_eq→≡, ok_status, Shown, NotFound, Browsed, pages-Browsed,
}
use agents_coworkers.Recovery.Client.Turns.{Names, Lacks, Shows, search_found, search_none}

-- The request for the session.
abbrev pub session_request : Server → String → Request
session_request s id = get ("/api/v1/sessions/" <> s.path_escape id)

-- `P` of each page.
abbrev pub All : (ConversationSnapshot → Type 0) → List ConversationSnapshot → Type 0
All P [] = Unit
All P (p ∷ ps) = P p × All P ps

-- The requests that may change something at AO.
abbrev pub posts : Trace → ℕ
posts [] = 0
posts (get p ∷ t) = posts t
posts (post p b ∷ t) = suc (posts t)

-- At most `n` requests were made, and none that changes anything.
pub record Reads {R : Type 0} (n : ℕ) (t : Trace) (x : Result R × Trace) : Type 0 where
  pub changes_nothing : posts (x.1) ≡ posts t
  pub bounded : length (x.1) ≤ length t + n

module _ (s : Server) {A R : Type 0} (found : ConversationSnapshot → Option R)
    (add : A → ConversationSnapshot → A) (last : A → R) where
  done_reading : (n : ℕ) (t : Trace) (p : String) (r : Result R) → Reads (suc n) t (r, get p ∷ t)
  done_reading n t p r = record { changes_nothing = refl; bounded = omega arith }

  later :
      (n : ℕ) (t : Trace) (p : String) (x : Result R × Trace)
      → Reads n (get p ∷ t) x
      → Reads (suc n) t x
  later n t p x r = record {
    changes_nothing = r.changes_nothing;
    bounded = omega (arith, r.bounded);
  }

  pub pages-Reads :
      (n : ℕ) (id : String) (acc : A) (before : ℕ) (t : Trace)
      → Reads n t (pages s found add last n id acc before t)
  unfolding pages
  pages-Reads zero id acc before t = record { changes_nothing = refl; bounded = omega arith }
  pages-Reads (suc n) id acc before t =
      let path = page_path s id before in
      let q = get path in
      result-intro (Reads (suc n) t) (s.answer t q) (λ x _. done_reading n t path (err x))
        λ a _.
          if-intro (Reads (suc n) t) (not (nat_eq (a.0) 200)) (λ _. done_reading n t path _)
            λ _.
              option-intro (Reads (suc n) t) (s.decode_snapshot (a.1))
                (λ _. done_reading n t path _)
                λ p _.
                  option-intro (Reads (suc n) t) (found p)
                    (λ _.
                      if-intro (Reads (suc n) t) (not p.has_more_before)
                        (λ _. done_reading n t path _)
                        λ _.
                          if-intro (Reads (suc n) t) (did_not_advance s found add last p before)
                            (λ _. done_reading n t path _)
                            λ _.
                              later n t path _
                                (pages-Reads n id (add acc p) (pos_part p.oldest_sequence) (q ∷ t)))
                    (λ r _. done_reading n t path (ok r))

-- AO answered that there is no such session.
pub record Absent (s : Server) (id : String) (t t' : Trace) (o : Observation) : Type 0 where
  pub body : String
  pub answered : s.answer t (session_request s id) ≡ ok (404, body)
  pub only_request : t' ≡ session_request s id ∷ t
  pub no_session : o.session_exists ≡ false
  pub not_stopped : o.human_stopped ≡ false
  pub unknown : o.delivery ≡ DeliveryState.unknown_delivery ""
  pub no_receipt : o.receipt ≡ none

-- AO showed the pages of the conversation, from the newest to the first that has the handle's turn.
pub record Seen (s : Server) (id handle : String) (t t' : Trace) (o : Observation) : Type 0 where
  pub pages_before : List ConversationSnapshot
  pub page : ConversationSnapshot
  pub turn : Turn
  pub shown : Shown s id 0 (session_request s id ∷ t) (pages_before ++ (page ∷ [])) t'
  pub lacking : All (Lacks s handle) pages_before
  pub on_page : Memᴰ turn page.turns
  pub named : Names handle turn
  pub shows : Shows s page turn o

-- There is no handle, or AO showed the whole conversation, and no page has a turn of it.
abbrev pub Unseen : Server → String → String → Trace → Trace → Type 0
Unseen s id handle t t' =
    ((handle ≡ "") × (t' ≡ session_request s id ∷ t))
    ⊎ ((ps : List ConversationSnapshot) × (p : ConversationSnapshot) × Shown s id 0
          (session_request s id ∷ t) (ps ++ (p ∷ [])) t'
        × (p.has_more_before ≡ false)
        × All (Lacks s handle) ps
        × Lacks s handle p)

-- There is a session, and no turn.
pub record Missed (s : Server) (id handle : String) (t t' : Trace) (o : Observation) : Type 0 where
  pub unseen : Unseen s id handle t t'
  pub exists : o.session_exists ≡ true
  pub not_stopped : o.human_stopped ≡ false
  pub not_found : o.delivery ≡ DeliveryState.not_found
  pub no_receipt : o.receipt ≡ none

abbrev pub SessionShown : Server → String → Trace → Type 0
SessionShown s id t = (body : String) × (s.answer t (session_request s id) ≡ ok (200, body))

abbrev pub Observed : Server → String → String → Trace → Result Observation × Trace → Type 0
Observed s id handle t (err x, t') = Unit
Observed s id handle t (ok o, t') =
    Absent s id t t' o
    ⊎ (SessionShown s id t × (Seen s id handle t t' o ⊎ Missed s id handle t t' o))

not_found_status :
    (s : Server) (t : Trace) (q : Request) (a : ℕ × String)
    → s.answer t q ≡ ok a
    → nat_eq (a.0) 404 ≡ true
    → s.answer t q ≡ ok (404, a.1)
not_found_status s t q a e h =
    let status : a.0 ≡ 404 = nat_eq→≡ (a.0) 404 (ground (arith, h)) in
    subst (λ k. s.answer t q ≡ ok (k, a.1)) status e

module _ (s : Server) (id handle : String) where
  abbrev keep : Unit {0} → ConversationSnapshot → Unit {0}
  keep u p = u

  abbrev nothing : Unit {0} → Observation
  nothing u = no_turn s true

  NotFound-Lacks :
      (ps : List ConversationSnapshot)
      → NotFound s (search_page s handle) keep nothing ps
      → All (Lacks s handle) ps
  NotFound-Lacks [] n = tt
  NotFound-Lacks (p ∷ ps) (n, m) = (search_none s handle p p.turns n, NotFound-Lacks ps m)

  missed :
      (t t' : Trace) (o : Observation)
      → Unseen s id handle t t'
      → o ≡ no_turn s true
      → Missed s id handle t t' o
  missed t t' o u e = record {
    unseen = u;
    exists = ap (λ (z : Observation). z.session_exists) e;
    not_stopped = ap (λ (z : Observation). z.human_stopped) e;
    not_found = ap (λ (z : Observation). z.delivery) e;
    no_receipt = ap (λ (z : Observation). z.receipt) e;
  }

  browsed-Observed :
      (t : Trace) (x : Result Observation × Trace)
      → SessionShown s id t
      → Browsed s (search_page s handle) keep nothing id tt 0 (session_request s id ∷ t) x
      → Observed s id handle t x
  browsed-Observed t (err y, t') k b = tt
  browsed-Observed t (ok o, t') k (ps, p, c, n, inl f) =
      let (u, m, i, q) = search_found s handle p p.turns o f in
      inr (
        k,
        inl (record {
          pages_before = ps;
          page = p;
          turn = u;
          shown = c;
          lacking = NotFound-Lacks ps n;
          on_page = m;
          named = i;
          shows = q;
        }),
      )
  browsed-Observed t (ok o, t') k (ps, p, c, n, inr (f, m, e)) =
      let none_here = search_none s handle p p.turns f in
      inr (k, inr (missed t t' o (inr (ps, p, c, m, NotFound-Lacks ps n, none_here)) e))

  pub observe-Observed : (t : Trace) → Observed s id handle t (observe s id handle t)
  unfolding observe observe_session
  observe-Observed t =
      let P = Observed s id handle t in
      let q = session_request s id in
      result-intro P (s.answer t q) (λ x _. tt)
        λ a e.
          if-intro P (nat_eq (a.0) 404)
            (λ h. inl (record {
              body = a.1;
              answered = not_found_status s t q a e h;
              only_request = refl;
              no_session = refl;
              not_stopped = refl;
              unknown = refl;
              no_receipt = refl;
            }))
            λ _.
              if-intro P (not (nat_eq (a.0) 200)) (λ _. tt)
                λ h.
                  let k : SessionShown s id t = (a.1, ok_status s t q a e h) in
                  if-intro P (handle == "")
                    (λ n.
                      inr (k, inr (missed t (q ∷ t) _ (inl ((eq_iff handle "").0 n, refl)) refl)))
                    λ _.
                      browsed-Observed t _ k
                        (pages-Browsed s (search_page s handle) keep nothing 1000 id tt 0 (q ∷ t))

-- `Observe` asks at most 1001 requests and changes nothing at AO.
pub observe-Reads :
    (s : Server) (id handle : String) (t : Trace) → Reads 1001 t (observe s id handle t)
unfolding observe observe_session
observe-Reads s id handle t =
    result-intro (Reads 1001 t) (s.answer t _)
      (λ x _. record { changes_nothing = refl; bounded = omega arith })
      λ a _.
        if-intro (Reads 1001 t) (nat_eq (a.0) 404)
          (λ _. record { changes_nothing = refl; bounded = omega arith })
          λ _.
            if-intro (Reads 1001 t) (not (nat_eq (a.0) 200))
              (λ _. record { changes_nothing = refl; bounded = omega arith })
              λ _.
                if-intro (Reads 1001 t) (handle == "")
                  (λ _. record { changes_nothing = refl; bounded = omega arith })
                  λ _.
                    let r =
                      pages-Reads s (search_page s handle) (λ (u : Unit {0}) p. u)
                        (λ (u : Unit {0}). no_turn s true) 1000 id tt 0 (get _ ∷ t) in
                    record {
                      changes_nothing = r.changes_nothing;
                      bounded = omega (arith, r.bounded);
                    }

pub live_turn_ids-Reads :
    (s : Server) (id : String) (t : Trace) → Reads 1000 t (live_turn_ids s id t)
unfolding live_turn_ids
live_turn_ids-Reads s id t = pages-Reads s _ _ _ 1000 id [] 0 t
