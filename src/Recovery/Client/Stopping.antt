-- ===== src/Recovery/Client/Stopping.antt =====
-- internal/recovery/ao_http.go: `Stop` interrupts a session only for the turn that it was asked to
-- stop.
use Prim.Native.String.{◌++◌ as ◌<>◌}
use agents_coworkers.Prelude.{
  ℕ, ◌≡◌, ◌≢◌, refl, sym, ap, subst, ◌∙◌, ◌⊎◌, inl, inr, true, false, not, ◌||◌, String, eq_iff,
  Option, none, List, [], ◌∷◌, ◌++◌, arith, if-intro,
}
use mathlib.Core.List.{Memᴰ}
use agents_coworkers.Recovery.Errors.{Error, Result, ok, err, result-intro}
use agents_coworkers.Recovery.World.{Observation}
use agents_coworkers.Recovery.Client.{
  Turn, ConversationSnapshot, Request, post, Trace, Server, is_accepted, is_success,
}
use agents_coworkers.Recovery.Client.Conversation.{
  is_sole, observe, live_turns, live_turn_ids, interrupt, stop_live, stop_observed, stop,
}
use agents_coworkers.Recovery.Client.Browsing.{Shown, Browsed, gathered, pages-Browsed}
use agents_coworkers.Recovery.Client.Turns.{Live, live-Mem, Mem-Live}
use agents_coworkers.Recovery.Client.Observing.{
  posts, observe-Reads, live_turn_ids-Reads, Observed, observe-Observed,
}

-- AO showed the whole conversation, from the newest page on.
pub record Whole (s : Server) (id : String) (t t' : Trace) (ps : List ConversationSnapshot)
    : Type 0 where
  pub before_last : List ConversationSnapshot
  pub last_page : ConversationSnapshot
  pub all_pages : ps ≡ before_last ++ (last_page ∷ [])
  pub shown : Shown s id 0 t ps t'
  pub ended : last_page.has_more_before ≡ false

-- A live turn of one of the pages.
abbrev pub LiveIn : List ConversationSnapshot → Turn → Type 0
LiveIn ps u = (p : ConversationSnapshot) × Memᴰ p ps × Memᴰ u p.turns × Live u

-- AO showed the turn as accepted, up to the requests `u`, and then, up to `v`, the whole
-- conversation, in which it is live, and is the only one.
pub record Sole (s : Server) (id turn_id : String) (t u v : Trace) : Type 0 where
  pub observation : Observation
  pub observed : Observed s id turn_id t (ok observation, u)
  pub exists : observation.session_exists ≡ true
  pub accepted : is_accepted observation.delivery ≡ true
  pub conversation : List ConversationSnapshot
  pub whole : Whole s id u v conversation
  pub live : (x : Turn) × LiveIn conversation x × (x.id ≡ turn_id)
  pub no_other : (x : Turn) → LiveIn conversation x → x.id ≡ turn_id

-- The request to interrupt the session.
abbrev pub interrupt_request : Server → String → Request
interrupt_request s id =
    post (("/api/v1/sessions/" <> s.path_escape id) <> "/conversation/interrupt") "{}"

-- Nothing changed at AO and `Stop` failed, or the turn was the sole one and AO was asked once to
-- interrupt this session; success is AO's answer to that.
abbrev pub Stops : Server → String → String → Trace → Option Error × Trace → Type 0
Stops s id turn_id t r =
    ((r.0 ≢ none) × (posts (r.1) ≡ posts t))
    ⊎ ((u : Trace) × (v : Trace) × Sole s id turn_id t u v
        × (posts v ≡ posts t)
        × (r.1 ≡ interrupt_request s id ∷ v)
        × (r.0 ≡ none
            → (a : ℕ × String) × (s.answer v (interrupt_request s id) ≡ ok a)
              × (is_success (a.0) ≡ true)))

Mem-left : {A : Type 0} (x : A) (l k : List A) → Memᴰ x l → Memᴰ x (l ++ k)
Mem-left x [] k m = elim m [ ]
Mem-left x (y ∷ l) k (Memᴰ.head e) = Memᴰ.head e
Mem-left x (y ∷ l) k (Memᴰ.tail m) = Memᴰ.tail (Mem-left x l k m)

Mem-right : {A : Type 0} (x : A) (l k : List A) → Memᴰ x k → Memᴰ x (l ++ k)
Mem-right x [] k m = m
Mem-right x (y ∷ l) k m = Memᴰ.tail (Mem-right x l k m)

Mem-append : {A : Type 0} (x : A) (l k : List A) → Memᴰ x (l ++ k) → Memᴰ x l ⊎ Memᴰ x k
Mem-append x [] k m = inr m
Mem-append x (y ∷ l) k (Memᴰ.head e) = inl (Memᴰ.head e)
Mem-append x (y ∷ l) k (Memᴰ.tail m) = elim (Mem-append x l k m) [
  | inl i ↦ inl (Memᴰ.tail i)
  | inr i ↦ inr i
]

Mem-single : (x y : String) → Memᴰ x (y ∷ []) → x ≡ y
Mem-single x y (Memᴰ.head e) = e
Mem-single x y (Memᴰ.tail m) = elim m [ ]

is_sole→≡ : (ids : List String) (turn_id : String) → is_sole ids turn_id ≡ true → ids ≡ turn_id ∷ []
is_sole→≡ [] turn_id h = absurd (cc)
is_sole→≡ (id ∷ []) turn_id h = ap (λ (z : String). z ∷ []) ((eq_iff id turn_id).0 h)
is_sole→≡ (id ∷ b ∷ ids) turn_id h = absurd (cc)

module _ (s : Server) where
  abbrev nowhere : ConversationSnapshot → Option (List String)
  nowhere p = none

  abbrev add_live : List String → ConversationSnapshot → List String
  add_live ids p = ids ++ live_turns s p.turns

  abbrev same_ids : List String → List String
  same_ids ids = ids

  abbrev collected : List String → List ConversationSnapshot → List String
  collected acc ps = gathered s nowhere add_live same_ids acc ps

  kept_ids :
      (x : String) (acc : List String) (ps : List ConversationSnapshot)
      → Memᴰ x acc
      → Memᴰ x (collected acc ps)
  kept_ids x acc [] m = m
  kept_ids x acc (p ∷ ps) m =
      kept_ids x (add_live acc p) ps (Mem-left x acc (live_turns s p.turns) m)

  live_collected :
      (u : Turn) (acc : List String) (ps : List ConversationSnapshot)
      → LiveIn ps u
      → Memᴰ u.id (collected acc ps)
  live_collected u acc [] (q, m, i, l) = elim m [ ]
  live_collected u acc (p ∷ ps) (q, Memᴰ.head e, i, l) =
      let j : Memᴰ u p.turns = subst (λ (z : ConversationSnapshot). Memᴰ u z.turns) e i in
      kept_ids u.id (add_live acc p) ps
        (Mem-right u.id acc (live_turns s p.turns) (live-Mem s p.turns u j l))
  live_collected u acc (p ∷ ps) (q, Memᴰ.tail m, i, l) =
      live_collected u (add_live acc p) ps (q, m, i, l)

  collected_live :
      (x : String) (acc : List String) (ps : List ConversationSnapshot)
      → Memᴰ x (collected acc ps)
      → Memᴰ x acc ⊎ ((u : Turn) × LiveIn ps u × (u.id ≡ x))
  collected_live x acc [] m = inl m
  collected_live x acc (p ∷ ps) m = elim (collected_live x (add_live acc p) ps m) [
    | inr (u, (q, j, i, l), e) ↦ inr (u, (q, Memᴰ.tail j, i, l), e)
    | inl k ↦ elim (Mem-append x acc (live_turns s p.turns) k) [
      | inl i ↦ inl i
      | inr i ↦ let (u, j, l, e) = Mem-Live s p.turns x i in inr (u, (p, Memᴰ.head refl, j, l), e)
    ]
  ]

  -- What the reading of the live turns has read.
  abbrev Collects : String → Trace → Result (List String) × Trace → Type 0
  Collects id t (err x, t') = Unit
  Collects id t (ok ids, t') =
      (ps : List ConversationSnapshot) × Whole s id t t' ps × (ids ≡ collected [] ps)

  Browsed-Collects :
      (id : String) (t : Trace) (x : Result (List String) × Trace)
      → Browsed s nowhere add_live same_ids id [] 0 t x
      → Collects id t x
  Browsed-Collects id t (err y, t') b = tt
  Browsed-Collects id t (ok ids, t') (ps, p, c, n, inl f) = absurd (cc)
  Browsed-Collects id t (ok ids, t') (ps, p, c, n, inr (f, m, e)) =
      let w : Whole s id t t' (ps ++ (p ∷ [])) = record {
        before_last = ps;
        last_page = p;
        all_pages = refl;
        shown = c;
        ended = m;
      } in
      (ps ++ (p ∷ []), w, e)

  live_turn_ids-Collects : (id : String) (t : Trace) → Collects id t (live_turn_ids s id t)
  unfolding live_turn_ids
  live_turn_ids-Collects id t =
      Browsed-Collects id t _ (pages-Browsed s nowhere add_live same_ids 1000 id [] 0 t)

-- What was read of the observation, for the rest of `Stop`.
record Stoppable (s : Server) (id turn_id : String) (t : Trace) (o : Observation) (u : Trace)
    : Type 0 where
  seen : Observed s id turn_id t (ok o, u)
  exists : o.session_exists ≡ true
  accepted : is_accepted o.delivery ≡ true

module _ (s : Server) (id turn_id : String) (t : Trace) where
  abbrev P : Option Error × Trace → Type 0
  P r = Stops s id turn_id t r

  interrupt-Stops :
      (u v : Trace) → Sole s id turn_id t u v → posts v ≡ posts t → P (interrupt s id v)
  unfolding interrupt
  interrupt-Stops u v o p =
      result-intro P (s.answer v (interrupt_request s id))
        (λ x _. inr (u, v, o, p, refl, λ n. absurd (cc)))
        λ a e.
          if-intro P (not (is_success (a.0))) (λ _. inr (u, v, o, p, refl, λ n. absurd (cc)))
            (λ h. inr (u, v, o, p, refl, λ n. (a, e, ground (arith, h))))

  Stoppable-Sole :
      (o : Observation) (u v : Trace) (ids : List String)
      → Stoppable s id turn_id t o u
      → Collects s id u (ok ids, v)
      → ids ≡ turn_id ∷ []
      → Sole s id turn_id t u v
  Stoppable-Sole o u v ids b (ps, w, e) h =
      let one : collected s [] ps ≡ turn_id ∷ [] = sym e ∙ h in
      record {
        observation = o;
        observed = b.seen;
        exists = b.exists;
        accepted = b.accepted;
        conversation = ps;
        whole = w;
        live =
            elim (collected_live s turn_id [] ps
              (subst (λ (z : List String). Memᴰ turn_id z) (sym one) (Memᴰ.head refl))) [
                | inl m ↦ absurd (elim m [ ])
                | inr r ↦ r
              ];
        no_other = λ x l.
            Mem-single x.id turn_id
              (subst (λ (z : List String). Memᴰ x.id z) one (live_collected s x [] ps l));
      }

  stop_live-Stops :
      (o : Observation) (u : Trace) (r : Result (List String) × Trace)
      → Stoppable s id turn_id t o u
      → Collects s id u r
      → posts (r.1) ≡ posts t
      → P (stop_live s id turn_id r)
  unfolding stop_live
  stop_live-Stops o u (err x, v) b c p = inl (λ n. absurd (cc), p)
  stop_live-Stops o u (ok ids, v) b c p =
      if-intro P (not (is_sole ids turn_id)) (λ _. inl (λ n. absurd (cc), p))
        λ h.
          interrupt-Stops u v
            (Stoppable-Sole o u v ids b c (is_sole→≡ ids turn_id (ground (arith, h)))) p

  stop_observed-Stops :
      (r : Result Observation × Trace)
      → Observed s id turn_id t r
      → posts (r.1) ≡ posts t
      → P (stop_observed s id turn_id r)
  unfolding stop_observed
  stop_observed-Stops (err x, u) e p = inl (λ n. absurd (cc), p)
  stop_observed-Stops (ok o, u) e p =
      if-intro P (not o.session_exists || not (is_accepted o.delivery))
        (λ _. inl (λ n. absurd (cc), p))
        λ h.
          stop_live-Stops o u (live_turn_ids s id u)
            (record { seen = e; exists = ground (arith, h); accepted = ground (arith, h) })
            (live_turn_ids-Collects s id u) ((live_turn_ids-Reads s id u).changes_nothing ∙ p)

  -- `Stop` changes nothing at AO and fails; or AO showed the turn as accepted, and then the whole
  -- conversation with the turn live in it and no other live turn, and then AO is asked, as the one
  -- change, to interrupt this session, and `Stop` succeeds only if AO answers that request with a
  -- status of success.
  pub stop-Stops : Stops s id turn_id t (stop s id turn_id t)
  unfolding stop
  stop-Stops =
      stop_observed-Stops (observe s id turn_id t) (observe-Observed s id turn_id t)
        (observe-Reads s id turn_id t).changes_nothing
