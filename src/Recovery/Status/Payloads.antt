-- ===== src/Recovery/Status/Payloads.antt =====
-- internal/recovery/status.go, `redactJSONPayloads`: which bytes are replaced.
use agents_coworkers.Prelude.{
  ℕ, zero, suc, ◌+◌, ◌≡◌, refl, sym, ap, ◌∙◌, subst, Bool, true, false, ◌&&◌, ◌||◌, not, Option,
  none, some, [], ◌∷◌, ◌++◌, take, length, length-append, all, nat_eq, if◌then◌else◌, if-intro,
  arith,
}
use mathlib.Core.List.{append_assoc}
use agents_coworkers.Recovery.Status.{
  Bytes, Scan, one_more, scan_end, opened, marker, judge_end, redact, redact_json_payloads,
}

-- The inside of an object, as far as its braces and strings are told apart: other bytes, the
-- contents of strings, and objects.
pub data Body : Type 0 where
  finished : Body
  other_byte : ℕ → Body → Body
  quoted : Bytes → Body → Body
  object : Body → Body → Body

abbrev pub print_body : Body → Bytes
print_body finished = []
print_body (other_byte c b) = c ∷ print_body b
print_body (quoted t b) = 34 ∷ (t ++ (34 ∷ print_body b))
print_body (object b r) = 123 ∷ (print_body b ++ (125 ∷ print_body r))

-- No quote stands alone, and no backslash at the end.
abbrev pub is_content : Bool → Bytes → Bool
is_content escaped [] = not escaped
is_content true (c ∷ t) = is_content false t
is_content false (c ∷ t) = (nat_eq c 92 || not (nat_eq c 34)) && is_content (nat_eq c 92) t

abbrev pub is_body : Body → Bool
is_body finished = true
is_body (other_byte c b) =
    not (nat_eq c 34) && (not (nat_eq c 123) && (not (nat_eq c 125) && is_body b))
is_body (quoted t b) = is_content false t && is_body b
is_body (object b r) = is_body b && is_body r

-- A count, with more before it.
abbrev more : Bytes → Option ℕ → Option ℕ
more [] o = o
more (c ∷ cs) o = one_more (more cs o)

more-append : (a b : Bytes) (o : Option ℕ) → more (a ++ b) o ≡ more a (more b o)
more-append [] b o = refl
more-append (c ∷ a) b o = ap one_more (more-append a b o)

abbrev at : ℕ → Bool → Bool → Scan
at n q e = record { depth = n; in_string = q; escaped = e }

content_lem :
    (n : ℕ) (t rest : Bytes) (e : Bool)
    → is_content e t ≡ true
    → scan_end (at n true e) (t ++ (34 ∷ rest))
      ≡ more t (one_more (scan_end (at n false false) rest))
unfolding scan_end
content_lem n [] rest true h = absurd (cc)
content_lem n [] rest false h = refl
content_lem n (c ∷ t) rest true h = ap one_more (content_lem n t rest false h)
content_lem n (c ∷ t) rest false h =
    let P : Scan → Type 0 = λ s.
      one_more (scan_end s (t ++ (34 ∷ rest)))
      ≡ one_more (more t (one_more (scan_end (at n false false) rest))) in
    let inside : is_content (nat_eq c 92) t ≡ true = ground (arith, h) in
    if-intro P (nat_eq c 92)
      (λ e. ap one_more (content_lem n t rest true (subst (λ b. is_content b t ≡ true) e inside)))
      λ e.
        if-intro P (nat_eq c 34) (λ f. absurd (ground (arith, h, e, f)))
          (λ f.
            ap one_more (content_lem n t rest false (subst (λ b. is_content b t ≡ true) e inside)))

body_lem :
    (n : ℕ) (b : Body) (rest : Bytes)
    → is_body b ≡ true
    → scan_end (at (suc n) false false) (print_body b ++ rest)
      ≡ more (print_body b) (scan_end (at (suc n) false false) rest)
unfolding scan_end
body_lem n finished rest h = refl
body_lem n (other_byte c b) rest h =
    let quote : nat_eq c 34 ≡ false = ground (arith, h) in
    let opens : nat_eq c 123 ≡ false = ground (arith, h) in
    let closing : nat_eq c 125 ≡ false = ground (arith, h) in
    rw (quote, opens, closing) (ap one_more (body_lem n b rest (ground (arith, h))))
body_lem n (quoted t b) rest h = ap one_more (
    ap (λ l. scan_end (at (suc n) true false) l) (append_assoc t (34 ∷ print_body b) rest)
    ∙ content_lem (suc n) t (print_body b ++ rest) false (ground (arith, h))
    ∙ ap (λ o. more t (one_more o)) (body_lem n b rest (ground (arith, h)))
    ∙ sym (more-append t (34 ∷ print_body b) (scan_end (at (suc n) false false) rest)))
body_lem n (object b r) rest h = ap one_more (
    ap (λ l. scan_end (at (suc (suc n)) false false) l)
      (append_assoc (print_body b) (125 ∷ print_body r) rest)
    ∙ body_lem (suc n) b (125 ∷ (print_body r ++ rest)) (ground (arith, h))
    ∙ ap (λ o. more (print_body b) (one_more o)) (body_lem n r rest (ground (arith, h)))
    ∙ sym
        (more-append (print_body b) (125 ∷ print_body r) (scan_end (at (suc n) false false) rest)))

more-some : (a : Bytes) (k : ℕ) → more a (some k) ≡ some (length a + k)
more-some [] k = ap (λ (z : ℕ). some z) (omega arith)
more-some (c ∷ a) k = ap one_more (more-some a k) ∙ ap (λ (z : ℕ). some z) (omega arith)

take-length : (a b : Bytes) → take (length a) (a ++ b) ≡ a
take-length [] b = refl
take-length (c ∷ a) b = ap (λ l. c ∷ l) (take-length a b)

skip_length : (f : Bytes → Bool) (a b : Bytes) → redact f (length a) (a ++ b) ≡ redact f zero b
unfolding redact
skip_length f [] b = refl
skip_length f (c ∷ a) b = skip_length f a b

-- The brace that closes an object is found.
end_lem :
    (b : Body) (rest : Bytes)
    → is_body b ≡ true
    → scan_end opened ((print_body b ++ (125 ∷ [])) ++ rest)
      ≡ some (length (print_body b ++ (125 ∷ [])))
unfolding scan_end
end_lem b rest h =
    ap (λ l. scan_end opened l) (append_assoc (print_body b) (125 ∷ []) rest)
    ∙ body_lem zero b (125 ∷ rest) h
    ∙ more-some (print_body b) 1
    ∙ ap (λ (z : ℕ). some z) (sym (length-append (print_body b) (125 ∷ [])))

-- An object is replaced, and so is the text after it.
object_lem :
    (f : Bytes → Bool) (b : Body) (rest : Bytes)
    → is_body b ≡ true
    → f (123 ∷ (print_body b ++ (125 ∷ []))) ≡ true
    → redact f zero (123 ∷ ((print_body b ++ (125 ∷ [])) ++ rest)) ≡ marker ++ redact f zero rest
unfolding redact
object_lem f b rest h k =
    let closed = print_body b ++ (125 ∷ []) in
    let l = closed ++ rest in
    let n = length closed in
    let read : f (123 ∷ take n l) ≡ true = ap (λ t. f (123 ∷ t)) (take-length closed rest) ∙ k in
    let judged : judge_end f l (scan_end opened l) ≡ some n =
      ap (λ o. judge_end f l o) (end_lem b rest h)
      ∙ ap (λ (z : Bool). if z then some n else none) read in
    ap (λ (o : Option ℕ). elim o [ none ↦ 123 ∷ redact f zero l | some m ↦ marker ++ redact f m l ])
      judged
    ∙ ap (λ t. marker ++ t) (skip_length f closed rest)

-- In a text, an object whose braces and strings are closed and that JSON reads is replaced by
-- the marker as a whole, with the objects inside it; the text before it, if it has no brace, is kept,
-- and the text after it is redacted in its turn.
pub redact_json_payloads_lem :
    (f : Bytes → Bool) (before : Bytes) (b : Body) (rest : Bytes)
    → all (λ c. not (nat_eq c 123)) before ≡ true
    → is_body b ≡ true
    → f (123 ∷ (print_body b ++ (125 ∷ []))) ≡ true
    → redact_json_payloads f (before ++ (123 ∷ ((print_body b ++ (125 ∷ [])) ++ rest)))
      ≡ before ++ (marker ++ redact_json_payloads f rest)
unfolding redact_json_payloads redact
redact_json_payloads_lem f [] b rest n h k = object_lem f b rest h k
redact_json_payloads_lem f (c ∷ before) b rest n h k =
    let other : nat_eq c 123 ≡ false = ground (arith, n) in
    let l = before ++ (123 ∷ ((print_body b ++ (125 ∷ [])) ++ rest)) in
    ap
      (λ (z : Bool). elim (if z then judge_end f l (scan_end opened l) else none) [
        | none ↦ c ∷ redact f zero l
        | some m ↦ marker ++ redact f m l
      ])
      other
    ∙ ap (λ t. c ∷ t) (redact_json_payloads_lem f before b rest (ground (arith, n)) h k)
