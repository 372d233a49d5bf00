-- ===== src/Recovery/Client/Turns.antt =====
-- internal/recovery/ao_http.go: what `Observe` and `liveTurnIDs` recognise in a page: the turn of a
-- handle, its receipt, and the turns that are live.
use agents_coworkers.Prelude.{
  ℕ, ◌≡◌, refl, sym, ap, subst, ◌∙◌, ◌⊎◌, inl, inr, Bool, true, false, not, ◌||◌, ◌&&◌, String,
  ◌==◌, eq_iff, Option, none, some, List, [], ◌∷◌, arith, Bool-cases, if-intro, nat_eq,
}
use mathlib.Core.List.{Memᴰ}
use agents_coworkers.Prelude.Text.{codes, trim, same_codes, strip_prefix, trim_prefix, split_on}
use agents_coworkers.Recovery.World.{DeliveryState, TaskReceipt, Observation}
use agents_coworkers.Recovery.Client.{
  Turn, Message, ConversationSnapshot, Server, map_turn_state, is_accepted, is_completed,
  receipt_of_line, or_else, receipt_of_lines, receipt_of_message, receipt_for_turn,
}
use agents_coworkers.Recovery.Client.Conversation.{is_turn, turn_seen, search_turn, live_turns}

-- The handle is the turn's id, or the provider's id of it, which it may have, with or without the
-- prefix `provider:`.
abbrev pub Names : String → Turn → Type 0
Names handle u =
    (u.id ≡ handle)
    ⊎ (((u.provider_turn_id == "") ≡ false)
        × (codes u.provider_turn_id ≡ trim_prefix (codes "provider:") (codes handle)))

nat_eq_same : (a b : ℕ) → nat_eq a b ≡ true → a ≡ b
nat_eq_same a b h = ground arith

nat_eq_refl : (a : ℕ) → nat_eq a a ≡ true
nat_eq_refl a = ground arith

both : (a b : Bool) → (a && b) ≡ true → (a ≡ true) × (b ≡ true)
both a b h = ground (arith, h)

same_codes→≡ : (a b : List ℕ) → same_codes a b ≡ true → a ≡ b
unfolding same_codes
same_codes→≡ [] [] h = refl
same_codes→≡ [] (d ∷ ds) h = absurd (cc)
same_codes→≡ (c ∷ cs) [] h = absurd (cc)
same_codes→≡ (c ∷ cs) (d ∷ ds) h =
    let (p, q) = both (nat_eq c d) (same_codes cs ds) h in
    let first : c ≡ d = nat_eq_same c d p in let rest : cs ≡ ds = same_codes→≡ cs ds q in cc

same_codes_refl : (a : List ℕ) → same_codes a a ≡ true
unfolding same_codes
same_codes_refl [] = refl
same_codes_refl (c ∷ cs) = rw (nat_eq_refl c, same_codes_refl cs)

≡→same_codes : (a b : List ℕ) → a ≡ b → same_codes a b ≡ true
≡→same_codes a b e = subst (λ c. same_codes a c ≡ true) e (same_codes_refl a)

module _ (s : Server) where
  is_turn-Names : (handle : String) (u : Turn) → is_turn s handle u ≡ true → Names handle u
  is_turn-Names handle u h = elim (Bool-cases (u.id == handle)) [
    | inl e ↦ inl ((eq_iff u.id handle).0 e)
    | inr e ↦ inr (ground (arith, h, e), same_codes→≡ _ _ (ground (arith, h, e)))
  ]

  not_turn_lem : (handle : String) (u : Turn) → is_turn s handle u ≡ false → Names handle u → ⊥
  not_turn_lem handle u h (inl e) = absurd (ground (arith, h, (eq_iff u.id handle).1 e))
  not_turn_lem handle u h (inr (n, e)) = absurd (ground (arith, h, n, ≡→same_codes _ _ e))

  -- No turn of the page has the handle.
  abbrev pub Lacks : String → ConversationSnapshot → Type 0
  Lacks handle p = (u : Turn) → Memᴰ u p.turns → Names handle u → ⊥

  -- A line of an assistant's message in the turn reads as the receipt.
  abbrev pub Written : ConversationSnapshot → String → TaskReceipt → Type 0
  Written p turn_id r =
      (m : Message) × Memᴰ m p.messages
      × (m.turn_id ≡ turn_id)
      × (m.role ≡ "assistant")
      × ((line : List ℕ) × Memᴰ line (split_on 10 (codes m.text))
          × ((rest : List ℕ) × (strip_prefix (codes "TASK_RECEIPT ") (trim line) ≡ some rest)
              × (s.decode_receipt rest ≡ some r)))

  -- The observation shows the turn: its delivery, and its receipt if it is completed.
  pub record Shows (p : ConversationSnapshot) (u : Turn) (o : Observation) : Type 0 where
    pub exists : o.session_exists ≡ true
    pub not_stopped : o.human_stopped ≡ false
    pub delivered : o.delivery ≡ map_turn_state u.state
    pub receipt_if_completed :
        o.delivery ≡ DeliveryState.completed → o.receipt ≡ receipt_for_turn s p.messages u.id
    pub completed_if_receipt :
        (r : TaskReceipt) → o.receipt ≡ some r → o.delivery ≡ DeliveryState.completed
    pub written : (r : TaskReceipt) → o.receipt ≡ some r → Written p u.id r

  line_of :
      (ls : List (List ℕ)) (r : TaskReceipt)
      → receipt_of_lines s ls ≡ some r
      → (line : List ℕ) × Memᴰ line ls × (receipt_of_line s line ≡ some r)
  unfolding receipt_of_lines
  line_of [] r h = absurd (cc)
  line_of (l ∷ ls) r h = first (receipt_of_line s l) refl (line_of ls r) h
    where
      first :
          (o : Option TaskReceipt)
          → receipt_of_line s l ≡ o
          → (receipt_of_lines s ls ≡ some r
              → (line : List ℕ) × Memᴰ line ls × (receipt_of_line s line ≡ some r))
          → or_else s o (receipt_of_lines s ls) ≡ some r
          → (line : List ℕ) × Memᴰ line (l ∷ ls) × (receipt_of_line s line ≡ some r)
      first (some q) e f k = (l, Memᴰ.head refl, e ∙ k)
      first none e f k = let (line, m, g) = f k in (line, Memᴰ.tail m, g)

  read_line :
      (line : List ℕ) (r : TaskReceipt)
      → receipt_of_line s line ≡ some r
      → (rest : List ℕ) × (strip_prefix (codes "TASK_RECEIPT ") (trim line) ≡ some rest)
        × (s.decode_receipt rest ≡ some r)
  read_line line r h = go (strip_prefix (codes "TASK_RECEIPT ") (trim line)) refl h
    where
      go :
          (o : Option (List ℕ))
          → strip_prefix (codes "TASK_RECEIPT ") (trim line) ≡ o
          → elim o [ none ↦ none | some rest ↦ s.decode_receipt rest ] ≡ some r
          → (rest : List ℕ) × (strip_prefix (codes "TASK_RECEIPT ") (trim line) ≡ some rest)
            × (s.decode_receipt rest ≡ some r)
      go none e k = absurd (cc)
      go (some rest) e k = (rest, e, k)

  message-Written :
      (p : ConversationSnapshot) (turn_id : String) (m : Message) (r : TaskReceipt)
      → Memᴰ m p.messages
      → receipt_of_message s turn_id m ≡ some r
      → Written p turn_id r
  message-Written p turn_id m r i =
      if-intro (λ o. o ≡ some r → Written p turn_id r)
        (not (m.turn_id == turn_id) || not (m.role == "assistant")) (λ _ k. absurd (cc))
        λ g k.
          let (line, j, e) = line_of (split_on 10 (codes m.text)) r k in
          (
            m,
            i,
            (eq_iff m.turn_id turn_id).0 (ground (arith, g)),
            (eq_iff m.role "assistant").0 (ground (arith, g)),
            (line, j, read_line line r e),
          )

  receipt-Written :
      (p : ConversationSnapshot) (turn_id : String) (r : TaskReceipt) (ms : List Message)
      → ((m : Message) → Memᴰ m ms → Memᴰ m p.messages)
      → receipt_for_turn s ms turn_id ≡ some r
      → Written p turn_id r
  unfolding receipt_for_turn
  receipt-Written p turn_id r [] f h = absurd (cc)
  receipt-Written p turn_id r (m ∷ ms) f h =
      later (receipt_for_turn s ms turn_id) refl
        (receipt-Written p turn_id r ms (λ n i. f n (Memᴰ.tail i))) h
    where
      later :
          (o : Option TaskReceipt)
          → receipt_for_turn s ms turn_id ≡ o
          → (receipt_for_turn s ms turn_id ≡ some r → Written p turn_id r)
          → or_else s o (receipt_of_message s turn_id m) ≡ some r
          → Written p turn_id r
      later (some q) e g k = g (e ∙ k)
      later none e g k = message-Written p turn_id m r (f m (Memᴰ.head refl)) k

  completed_lem : (d : DeliveryState) → is_completed d ≡ true → d ≡ DeliveryState.completed
  completed_lem DeliveryState.completed h = refl
  completed_lem DeliveryState.not_found h = absurd (cc)
  completed_lem DeliveryState.reserved h = absurd (cc)
  completed_lem DeliveryState.accepted h = absurd (cc)
  completed_lem DeliveryState.rejected h = absurd (cc)
  completed_lem DeliveryState.stopped h = absurd (cc)
  completed_lem (DeliveryState.unknown_delivery x) h = absurd (cc)

  of_receipt :
      (p : ConversationSnapshot) (u : Turn) (r : TaskReceipt)
      → (turn_seen s p u).receipt ≡ some r
      → (map_turn_state u.state ≡ DeliveryState.completed) × Written p u.id r
  of_receipt p u r =
      let P = (map_turn_state u.state ≡ DeliveryState.completed) × Written p u.id r in
      if-intro (λ o. o ≡ some r → P) (is_completed (map_turn_state u.state))
        (λ c k. (
          completed_lem (map_turn_state u.state) c,
          receipt-Written p u.id r p.messages (λ m i. i) k,
        ))
        (λ _ k. absurd (cc))

  turn_seen-Shows : (p : ConversationSnapshot) (u : Turn) → Shows p u (turn_seen s p u)
  turn_seen-Shows p u = record {
    exists = refl;
    not_stopped = refl;
    delivered = refl;
    receipt_if_completed = λ e. rw (ap is_completed e) refl;
    completed_if_receipt = λ r k. (of_receipt p u r k).0;
    written = λ r k. (of_receipt p u r k).1;
  }

  pub search_found :
      (handle : String) (p : ConversationSnapshot) (us : List Turn) (o : Observation)
      → search_turn s handle p us ≡ some o
      → (u : Turn) × Memᴰ u us × Names handle u × Shows p u o
  unfolding search_turn
  search_found handle p [] o h = absurd (cc)
  search_found handle p (u ∷ us) o h = elim (Bool-cases (is_turn s handle u)) [
    | inl e ↦
        let same_value : turn_seen s p u ≡ o = cc (rw e at h) in
        (
          u,
          Memᴰ.head refl,
          is_turn-Names handle u e,
          subst (Shows p u) same_value (turn_seen-Shows p u),
        )
    | inr e ↦ let (v, m, i, q) = search_found handle p us o (rw e at h) in (v, Memᴰ.tail m, i, q)
  ]

  pub search_none :
      (handle : String) (p : ConversationSnapshot) (us : List Turn)
      → search_turn s handle p us ≡ none
      → (u : Turn) → Memᴰ u us
      → Names handle u
      → ⊥
  unfolding search_turn
  search_none handle p [] h u m n = elim m [ ]
  search_none handle p (v ∷ us) h u m n = elim (Bool-cases (is_turn s handle v)) [
    | inl e ↦ absurd (cc (rw e at h))
    | inr e ↦ elim m [
      | Memᴰ.head k ↦ not_turn_lem handle v e (subst (Names handle) k n)
      | Memᴰ.tail k ↦ search_none handle p us (rw e at h) u k n
    ]
  ]

-- A turn that AO has accepted and not ended.
abbrev pub Live : Turn → Type 0
Live u = is_accepted (map_turn_state u.state) ≡ true

pub live-Mem :
    (s : Server) (us : List Turn) (u : Turn) → Memᴰ u us → Live u → Memᴰ u.id (live_turns s us)
unfolding live_turns
live-Mem s [] u m l = elim m [ ]
live-Mem s (v ∷ us) u (Memᴰ.head e) l =
    let k : Live v = subst Live e l in rw k (Memᴰ.head (ap (λ (z : Turn). z.id) e))
live-Mem s (v ∷ us) u (Memᴰ.tail m) l =
    let rest = live-Mem s us u m l in
    if-intro (λ z. Memᴰ u.id z) (is_accepted (map_turn_state v.state)) (λ _. Memᴰ.tail rest)
      (λ _. rest)

pub Mem-Live :
    (s : Server) (us : List Turn) (x : String)
    → Memᴰ x (live_turns s us)
    → (u : Turn) × Memᴰ u us × Live u × (u.id ≡ x)
unfolding live_turns
Mem-Live s [] x m = elim m [ ]
Mem-Live s (v ∷ us) x m = elim (Bool-cases (is_accepted (map_turn_state v.state))) [
  | inl k ↦ elim (rw k at m) [
    | Memᴰ.head e ↦ (v, Memᴰ.head refl, k, sym e)
    | Memᴰ.tail n ↦ let (u, i, l, e) = Mem-Live s us x n in (u, Memᴰ.tail i, l, e)
  ]
  | inr k ↦ let (u, i, l, e) = Mem-Live s us x (rw k at m) in (u, Memᴰ.tail i, l, e)
]
