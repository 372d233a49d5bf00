-- ===== src/Control/Manifest/Equalities.antt =====
-- internal/workforce/control/manifest.go: the tests of equality that a match of two documents makes,
-- and what they establish.
use agents_coworkers.Prelude.{
  ◌≡◌, refl, Bool, true, false, ◌&&◌, ◌==◌, eq_iff, eq_refl, subst, List, [], ◌∷◌, arith,
}
use agents_coworkers.Control.Types.{AttachedSessionProfile, SourceProvenance}
use agents_coworkers.Control.Manifest.Matching.{same_bool, same_profile, same_provenance, all_hold}

-- Every test holds.
abbrev pub Holds : List Bool → Type 0
Holds [] = Unit
Holds (b ∷ bs) = (b ≡ true) × Holds bs

pub all_hold-Holds : (l : List Bool) → all_hold l ≡ true → Holds l
unfolding all_hold
all_hold-Holds [] h = tt
all_hold-Holds (true ∷ l) h = (refl, all_hold-Holds l h)
all_hold-Holds (false ∷ l) h = absurd (cc)

pub Holds-all_hold : (l : List Bool) → Holds l → all_hold l ≡ true
unfolding all_hold
Holds-all_hold [] h = refl
Holds-all_hold (true ∷ l) (h, r) = Holds-all_hold l r
Holds-all_hold (false ∷ l) (h, r) = absurd (cc)

pub both : (a b : Bool) → (a && b) ≡ true → (a ≡ true) × (b ≡ true)
both a b h = ground (arith, h)

pub same_bool→≡ : (a b : Bool) → same_bool a b ≡ true → a ≡ b
same_bool→≡ true true h = refl
same_bool→≡ true false h = absurd (cc)
same_bool→≡ false true h = absurd (cc)
same_bool→≡ false false h = refl

pub same_bool_refl : (a : Bool) → same_bool a a ≡ true
same_bool_refl true = refl
same_bool_refl false = refl

pub same_profile→≡ : (a b : AttachedSessionProfile) → same_profile a b ≡ true → a ≡ b
same_profile→≡ a b h =
    let (r, s) = both _ (a.status == b.status) h in
    let (r₁, e) = both _ (a.reasoning_effort == b.reasoning_effort) r in
    let (r₂, m) = both _ (a.model == b.model) r₁ in
    let (k, n) = both (a.kind == b.kind) (a.harness == b.harness) r₂ in
    λ i. record {
      kind = (eq_iff a.kind b.kind).0 k i;
      harness = (eq_iff a.harness b.harness).0 n i;
      model = (eq_iff a.model b.model).0 m i;
      reasoning_effort = (eq_iff a.reasoning_effort b.reasoning_effort).0 e i;
      status = (eq_iff a.status b.status).0 s i;
    }

pub same_profile_refl : (a : AttachedSessionProfile) → same_profile a a ≡ true
same_profile_refl a = rw (
  eq_refl a.kind,
  eq_refl a.harness,
  eq_refl a.model,
  eq_refl a.reasoning_effort,
  eq_refl a.status,
)

pub same_provenance→≡ : (a b : SourceProvenance) → same_provenance a b ≡ true → a ≡ b
same_provenance→≡ a b h =
    let (p, q) = both (a.cli_proxy_api_sha == b.cli_proxy_api_sha) _ h in
    let f = same_bool→≡ a.source_audit_only b.source_audit_only q in
    λ i. record {
      cli_proxy_api_sha = (eq_iff a.cli_proxy_api_sha b.cli_proxy_api_sha).0 p i;
      source_audit_only = f i;
    }

pub same_provenance_refl : (a : SourceProvenance) → same_provenance a a ≡ true
same_provenance_refl a = rw (eq_refl a.cli_proxy_api_sha, same_bool_refl a.source_audit_only)

pub equal_bools : (a b : Bool) → a ≡ b → same_bool a b ≡ true
equal_bools a b e = subst (λ (c : Bool). same_bool a c ≡ true) e (same_bool_refl a)

pub both_true : (a b : Bool) → a ≡ true → b ≡ true → (a && b) ≡ true
both_true a b e f = ground (arith, e, f)
