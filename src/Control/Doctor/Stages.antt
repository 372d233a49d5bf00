-- ===== src/Control/Doctor/Stages.antt =====
-- internal/workforce/control/doctor.go: what each stage of the doctor and those after it establish.
use agents_coworkers.Prelude.{
  ℕ, ◌≡◌, refl, ap, ◌∙◌, ◌⊎◌, inl, inr, Bool, true, false, ◌&&◌, not, String, ◌==◌, List, [], ◌∷◌,
  any, is_nil, if-intro,
}
use agents_coworkers.Recovery.Errors.{ok, result-intro}
use agents_coworkers.Control.Types.{RunSpec, AoDiscoveryResult, GatewayResult, DoctorReport}
use agents_coworkers.Control.Checks.{holds}
use agents_coworkers.Control.Worktree.{check_worktree_dirty_policy}
use agents_coworkers.Control.Discovery.{
  kind_code, Discovery, found, missing, DiscoveryErrorKind, validation, unavailable,
  resolve_ao_endpoint, resolve_gateway_endpoint,
}
use agents_coworkers.Control.Doctor.{
  Surroundings, fail, is_lacking, all_served, with_models, with_tools, with_workspace,
  check_catalog_models, check_required_tools, check_baseline, judge_workspace,
  check_execution_workspace, check_root, check_gateway, check_ao,
}

-- The two ends of a run: a failure, with its code and status, or a report of which `P` holds.
abbrev pub Ends : (DoctorReport → Type 0) → DoctorReport × ℕ → Type 0
Ends P x = (((x.1 ≡ 2) ⊎ (x.1 ≡ 3)) × ((x.0).status ≡ "FAIL")) ⊎ ((x.1 ≡ 0) × P (x.0))

pub Ends-map :
    (P Q : DoctorReport → Type 0) (x : DoctorReport × ℕ)
    → ((q : DoctorReport) → P q → Q q)
    → Ends P x
    → Ends Q x
Ends-map P Q x f (inl n) = inl n
Ends-map P Q x f (inr (z, p)) = inr (z, f (x.0) p)

pub failed_with_2 :
    (P : DoctorReport → Type 0) (r : DoctorReport) (text : String)
    → r.status ≡ "FAIL"
    → Ends P (fail r text 2)
failed_with_2 P r text h = inl (inl refl, h)

kind_code_lem : (k : DiscoveryErrorKind) → (kind_code k ≡ 2) ⊎ (kind_code k ≡ 3)
kind_code_lem validation = inl refl
kind_code_lem unavailable = inr refl

found-intro :
    {A : Type 0} {B : Type 0} (P : B → Type 0) (o : Discovery A) {f : DiscoveryErrorKind → B}
    {g : A → B}
    → ((k : DiscoveryErrorKind) → P (f k))
    → ((a : A) → o ≡ found a → P (g a))
    → P (elim o [ missing k ↦ f k | found a ↦ g a ])
found-intro P (missing k) h i = h k
found-intro P (found a) h i = i a refl

not_nil : (out : List ℕ) → not (is_nil out) ≡ false → out ≡ []
not_nil [] h = refl
not_nil (c ∷ cs) h = absurd (cc)

-- What each stage and those after it establish of the report `q` that they make from `r`.
module _ (d : Surroundings) where
  abbrev pub Models : RunSpec → DoctorReport → DoctorReport → Type 0
  Models s r q =
      (q ≡ record (with_models d r s) { status = "PASS" })
      × (all_served d r.gateway_endpoint.observed_models s.profiles ≡ true)

  abbrev pub Tools : RunSpec → DoctorReport → DoctorReport → Type 0
  Tools s r q = (any (is_lacking d) s.required_tools ≡ false) × Models s (with_tools d r s) q

  abbrev pub Baseline : RunSpec → DoctorReport → DoctorReport → Type 0
  Baseline s r q =
      (d.commit_exists s.target.target_root s.target.baseline_sha ≡ true)
      × Tools s (record r { baseline_found = true }) q

  abbrev pub Workspace : RunSpec → DoctorReport → DoctorReport → Type 0
  Workspace s r q =
      (w : Bool × String) × (check_worktree_dirty_policy d.git s.target.execution_workspace s.run_id
        ≡ ok w)
      × ((s.workspace_policy.execution_workspace_dirty_policy == "require_clean" && not (w.0))
          ≡ false)
      × Baseline s (with_workspace d r s w) q

  abbrev pub Root : RunSpec → DoctorReport → DoctorReport → Type 0
  Root s r q =
      (d.root_status s.target.target_root ≡ ok [])
      × Workspace s (record r { target_root_clean = true }) q

  abbrev pub Gateway : String → RunSpec → DoctorReport → DoctorReport → Type 0
  Gateway gateway_url s r q =
      (g : GatewayResult) × (resolve_gateway_endpoint d.machine gateway_url ≡ found g)
      × Root s (record r { gateway_endpoint = g }) q

  abbrev pub Daemon : String → String → RunSpec → DoctorReport → DoctorReport → Type 0
  Daemon ao_url gateway_url s r q =
      (a : AoDiscoveryResult) × (resolve_ao_endpoint d.machine ao_url ≡ found a)
      × Gateway gateway_url s (record r { ao_endpoint = a }) q

  Models-Ends :
      (s : RunSpec) (r : DoctorReport)
      → r.status ≡ "FAIL"
      → Ends (Models s r) (check_catalog_models d s r)
  unfolding check_catalog_models
  Models-Ends s r h =
      if-intro (Ends (Models s r))
        (not (all_served d r.gateway_endpoint.observed_models s.profiles))
        (λ _. failed_with_2 (Models s r) (with_models d r s) _ h)
        (λ e.
          inr (refl, (refl, holds (all_served d r.gateway_endpoint.observed_models s.profiles) e)))

  Tools-Ends :
      (s : RunSpec) (r : DoctorReport)
      → r.status ≡ "FAIL"
      → Ends (Tools s r) (check_required_tools d s r)
  unfolding check_required_tools
  Tools-Ends s r h =
      if-intro (Ends (Tools s r)) (any (is_lacking d) s.required_tools) (λ _. inl (inl refl, h))
        λ e.
          Ends-map (Models s (with_tools d r s)) (Tools s r)
            (check_catalog_models d s (with_tools d r s)) (λ q m. (e, m))
            (Models-Ends s (with_tools d r s) h)

  Baseline-Ends :
      (s : RunSpec) (r : DoctorReport)
      → r.status ≡ "FAIL"
      → Ends (Baseline s r) (check_baseline d s r)
  unfolding check_baseline
  Baseline-Ends s r h =
      let c = d.commit_exists s.target.target_root s.target.baseline_sha in
      let r' : DoctorReport = record r { baseline_found = true } in
      if-intro (Ends (Baseline s r)) (not c) (λ _. failed_with_2 (Baseline s r) r _ h)
        λ e.
          Ends-map (Tools s r') (Baseline s r) (check_required_tools d s r') (λ q t. (holds c e, t))
            (Tools-Ends s r' h)

  Workspace-Ends :
      (s : RunSpec) (r : DoctorReport)
      → r.status ≡ "FAIL"
      → Ends (Workspace s r) (check_execution_workspace d s r)
  unfolding check_execution_workspace judge_workspace
  Workspace-Ends s r h =
      result-intro (Ends (Workspace s r))
        (check_worktree_dirty_policy d.git s.target.execution_workspace s.run_id)
        (λ x _. failed_with_2 (Workspace s r) r _ h)
        λ w e.
          if-intro (Ends (Workspace s r))
            (s.workspace_policy.execution_workspace_dirty_policy == "require_clean" && not (w.0))
            (λ _. failed_with_2 (Workspace s r) (with_workspace d r s w) _ h)
            λ p.
              Ends-map (Baseline s (with_workspace d r s w)) (Workspace s r)
                (check_baseline d s (with_workspace d r s w)) (λ q b. (w, e, p, b))
                (Baseline-Ends s (with_workspace d r s w) h)

  Root-Ends :
      (s : RunSpec) (r : DoctorReport) → r.status ≡ "FAIL" → Ends (Root s r) (check_root d s r)
  unfolding check_root
  Root-Ends s r h =
      let r' : DoctorReport = record r { target_root_clean = true } in
      result-intro (Ends (Root s r)) (d.root_status s.target.target_root)
        (λ x _. failed_with_2 (Root s r) r _ h)
        λ out e.
          if-intro (Ends (Root s r)) (not (is_nil out)) (λ _. failed_with_2 (Root s r) r _ h)
            λ n.
              Ends-map (Workspace s r') (Root s r) (check_execution_workspace d s r')
                (λ q w. (e ∙ ap (λ (z : List ℕ). ok z) (not_nil out n), w)) (Workspace-Ends s r' h)

  Gateway-Ends :
      (gateway_url : String) (s : RunSpec) (r : DoctorReport)
      → r.status ≡ "FAIL"
      → Ends (Gateway gateway_url s r) (check_gateway d gateway_url s r)
  unfolding check_gateway
  Gateway-Ends gateway_url s r h =
      found-intro (Ends (Gateway gateway_url s r)) (resolve_gateway_endpoint d.machine gateway_url)
        (λ k. inl (kind_code_lem k, h))
        λ g e.
          let r' : DoctorReport = record r { gateway_endpoint = g } in
          Ends-map (Root s r') (Gateway gateway_url s r) (check_root d s r') (λ q w. (g, e, w))
            (Root-Ends s r' h)

  pub Daemon-Ends :
      (ao_url gateway_url : String) (s : RunSpec) (r : DoctorReport)
      → r.status ≡ "FAIL"
      → Ends (Daemon ao_url gateway_url s r) (check_ao d ao_url gateway_url s r)
  unfolding check_ao
  Daemon-Ends ao_url gateway_url s r h =
      found-intro (Ends (Daemon ao_url gateway_url s r)) (resolve_ao_endpoint d.machine ao_url)
        (λ k. inl (kind_code_lem k, h))
        λ a e.
          let r' : DoctorReport = record r { ao_endpoint = a } in
          Ends-map (Gateway gateway_url s r') (Daemon ao_url gateway_url s r)
            (check_gateway d gateway_url s r') (λ q w. (a, e, w)) (Gateway-Ends gateway_url s r' h)
