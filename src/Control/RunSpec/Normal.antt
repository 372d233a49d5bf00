-- ===== src/Control/RunSpec/Normal.antt =====
-- internal/workforce/control/run_spec.go: what the checks and the loops establish.
use agents_coworkers.Prelude.{
  ℕ, ◌≤◌, ◌≡◌, ◌≢◌, refl, sym, ◌⊎◌, inl, inr, Bool, true, false, ◌&&◌, ◌||◌, not, String, ◌==◌,
  eq_iff, Option, none, some, List, [], ◌∷◌, is_nil, arith, Bool-cases, if-intro, subst,
}
use mathlib.Core.List.{Memᴰ}
use agents_coworkers.Prelude.Int.{ℤ, pos, negsuc, int_le}
use agents_coworkers.Prelude.Text.{trim_space}
use agents_coworkers.Recovery.Errors.{Error}
use agents_coworkers.Control.Types.{RunSpec, RequiredTool, ConcurrencySpec, ProfileSpec}
use agents_coworkers.Control.Checks.{
  first_failure, first_failure-Passes, same, holds, Accepts, Accepts-map,
}
use agents_coworkers.Control.RunSpec.{
  is_tool_name, is_git, check_tools, check_profiles, is_out_of_bounds, target_checks, policy_checks,
}

-- Every tool has the name of a program.
abbrev pub ToolsNamed : List RequiredTool → Type 0
ToolsNamed tools = (t : RequiredTool) → Memᴰ t tools → is_tool_name (trim_space t.name) ≡ true

-- Git is among the tools, as one that is required.
abbrev pub GitRequired : List RequiredTool → Type 0
GitRequired tools =
    (t : RequiredTool) × Memᴰ t tools × (trim_space t.name ≡ "git") × (t.required ≡ true)

abbrev pub ProfilesNamed : List (String × ProfileSpec) → Type 0
ProfilesNamed ps =
    (p : String × ProfileSpec)
    → Memᴰ p ps
    → (trim_space (p.1).model ≢ "") × (trim_space (p.1).reasoning_effort ≢ "")

abbrev pub Bounded : Option ConcurrencySpec → Type 0
Bounded none = Unit
Bounded (some c) = (k : ℕ) × (c.max_concurrency ≡ pos k) × (1 ≤ k) × (k ≤ 3)

-- What the checks establish of a normal form.
pub record Checked (n : RunSpec) : Type 0 where
  pub baseline_named : n.target.baseline_sha ≢ ""
  pub branch_named : n.target.expected_branch ≢ ""
  pub clean_root : n.workspace_policy.product_root_must_be_clean ≡ true
  pub policy :
      (n.workspace_policy.execution_workspace_dirty_policy ≡ "require_clean")
      ⊎ (n.workspace_policy.execution_workspace_dirty_policy ≡ "allow_dirty_recorded")
  pub tools_named : ToolsNamed n.required_tools
  pub git_required : GitRequired n.required_tools
  pub ao_discovery : n.endpoint_policy.ao_discovery ≡ "flag_env_runfile_candidates_fail_closed"
  pub gateway_discovery :
      n.endpoint_policy.gateway_discovery ≡ "flag_env_historical_default_fail_closed"
  pub bounded : Bounded n.concurrency
  pub profiled : n.profiles ≢ []
  pub profiles_named : ProfilesNamed n.profiles

pub not_empty : (x : String) → (x == "") ≡ false → x ≢ ""
not_empty x h p = absurd (cc ((eq_iff x "").1 p))

-- What the loop over the tools says of git and of the names.
abbrev pub Tools : Bool → List RequiredTool → Bool → Type 0
Tools g tools r = (r ≡ true → (g ≡ true) ⊎ GitRequired tools) × ToolsNamed tools

some_git :
    (g : Bool) (t : RequiredTool) (tools : List RequiredTool) (r : Bool)
    → is_tool_name (trim_space t.name) ≡ true
    → Tools (g || is_git t) tools r
    → Tools g (t ∷ tools) r
some_git g t tools r n (f, w) = (
  λ e. elim (f e) [
    | inl b ↦ elim (Bool-cases g) [
      | inl c ↦ inl c
      | inr c ↦
          let (x, y) = parts (trim_space t.name == "git") t.required (rw c at b) in
          inr (t, Memᴰ.head refl, (eq_iff (trim_space t.name) "git").0 x, y)
    ]
    | inr (u, m, q, r) ↦ inr (u, Memᴰ.tail m, q, r)
  ],
  named,
)
  where
    parts : (a b : Bool) → (a && b) ≡ true → (a ≡ true) × (b ≡ true)
    parts a b h = ground (arith, h)

    named : ToolsNamed (t ∷ tools)
    named u (Memᴰ.head e) =
        subst (λ (v : RequiredTool). is_tool_name (trim_space v.name) ≡ true) (sym e) n
    named u (Memᴰ.tail m) = w u m

pub check_tools-Tools :
    (g : Bool) (tools : List RequiredTool) → Accepts (Tools g tools) (check_tools g tools)
unfolding check_tools
check_tools-Tools g [] = (λ e. inl e, λ t m. elim m [ ])
check_tools-Tools g (t ∷ tools) =
    if-intro (Accepts (Tools g (t ∷ tools))) (trim_space t.name == "") (λ _. tt)
      λ _.
        if-intro (Accepts (Tools g (t ∷ tools))) (not (is_tool_name (trim_space t.name))) (λ _. tt)
          λ n.
            Accepts-map (Tools (g || is_git t) tools) (Tools g (t ∷ tools))
              (check_tools (g || is_git t) tools)
              (λ r w. some_git g t tools r (holds (is_tool_name (trim_space t.name)) n) w)
              (check_tools-Tools (g || is_git t) tools)

check_profiles-ProfilesNamed :
    (ps : List (String × ProfileSpec)) → check_profiles ps ≡ none → ProfilesNamed ps
unfolding check_profiles
check_profiles-ProfilesNamed [] h = λ q m. elim m [ ]
check_profiles-ProfilesNamed (p ∷ ps) h =
    if-intro (λ (o : Option Error). o ≡ none → ProfilesNamed (p ∷ ps))
      (trim_space (p.1).model == "") (λ _ e. absurd (cc))
      (λ a.
        if-intro (λ (o : Option Error). o ≡ none → ProfilesNamed (p ∷ ps))
          (trim_space (p.1).reasoning_effort == "") (λ _ e. absurd (cc))
          (λ b e. named a b (check_profiles-ProfilesNamed ps e)))
      h
  where
    named :
        (trim_space (p.1).model == "") ≡ false
        → (trim_space (p.1).reasoning_effort == "") ≡ false
        → ProfilesNamed ps
        → ProfilesNamed (p ∷ ps)
    named a b w q (Memᴰ.head e) =
        subst
          (λ (v : String × ProfileSpec).
            (trim_space (v.1).model ≢ "") × (trim_space (v.1).reasoning_effort ≢ ""))
          (sym e)
          (not_empty (trim_space (p.1).model) a, not_empty (trim_space (p.1).reasoning_effort) b)
    named a b w q (Memᴰ.tail m) = w q m

int_bounds :
    (a : ℤ)
    → (not (int_le (pos 1) a) || not (int_le a (pos 3))) ≡ false
    → (k : ℕ) × (a ≡ pos k) × (1 ≤ k) × (k ≤ 3)
int_bounds (pos k) h = (k, refl, ground (arith, h), ground (arith, h))
int_bounds (negsuc k) h = absurd (ground (arith, h))

bounded_lem : (c : Option ConcurrencySpec) → is_out_of_bounds c ≡ false → Bounded c
bounded_lem none h = tt
bounded_lem (some c) h = int_bounds c.max_concurrency h

not_nil : (ps : List (String × ProfileSpec)) → is_nil ps ≡ false → ps ≢ []
not_nil [] h e = absurd (cc)
not_nil (p ∷ ps) h e = absurd (cc)

policy_lem :
    (x : String)
    → (not (x == "require_clean") && not (x == "allow_dirty_recorded")) ≡ false
    → (x ≡ "require_clean") ⊎ (x ≡ "allow_dirty_recorded")
policy_lem x h = elim (Bool-cases (x == "require_clean")) [
  | inl e ↦ inl ((eq_iff x "require_clean").0 e)
  | inr e ↦ inr (same x "allow_dirty_recorded" (ground (arith, h, e)))
]

pub checked_lem :
    (n : RunSpec)
    → first_failure (target_checks n) ≡ none
    → ToolsNamed n.required_tools
    → GitRequired n.required_tools
    → first_failure (policy_checks n) ≡ none
    → check_profiles n.profiles ≡ none
    → Checked n
checked_lem n t w g p q =
    let a = first_failure-Passes (target_checks n) t in
    let b = first_failure-Passes (policy_checks n) p in
    record {
      baseline_named = not_empty n.target.baseline_sha (a.0);
      branch_named = not_empty n.target.expected_branch (a.1.0);
      clean_root = holds n.workspace_policy.product_root_must_be_clean (a.1.1.0);
      policy = policy_lem n.workspace_policy.execution_workspace_dirty_policy (a.1.1.1.0);
      tools_named = w;
      git_required = g;
      ao_discovery =
          same n.endpoint_policy.ao_discovery "flag_env_runfile_candidates_fail_closed" (b.0);
      gateway_discovery =
          same n.endpoint_policy.gateway_discovery "flag_env_historical_default_fail_closed"
            (b.1.0);
      bounded = bounded_lem n.concurrency (b.1.1.0);
      profiled = not_nil n.profiles (b.1.1.1.0);
      profiles_named = check_profiles-ProfilesNamed n.profiles q;
    }
