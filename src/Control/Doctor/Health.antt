-- ===== src/Control/Doctor/Health.antt =====
-- internal/workforce/control/doctor.go: what a run of the doctor that passes has established.
use agents_coworkers.Prelude.{
  ◌≡◌, refl, sym, ap, ◌∙◌, Bool, true, false, ◌&&◌, not, String, ◌==◌, eq_iff, List, [], ◌∷◌, any,
  arith, subst,
}
use mathlib.Core.List.{Memᴰ}
use agents_coworkers.Recovery.Errors.{ok, result-intro}
use agents_coworkers.Control.Types.{RunSpec, RequiredTool, ProfileSpec, DoctorReport}
use agents_coworkers.Control.RunSpec.{parse_and_validate_run_spec}
use agents_coworkers.Control.Worktree.{check_worktree_dirty_policy}
use agents_coworkers.Control.Checks.{any_same}
use agents_coworkers.Control.Discovery.{found, resolve_ao_endpoint, resolve_gateway_endpoint}
use agents_coworkers.Control.Doctor.{
  Surroundings, no_report, is_found, is_lacking, is_served, all_served, check_ao, examine,
  run_doctor,
}
use agents_coworkers.Control.Doctor.Stages.{Ends, Ends-map, failed_with_2, Daemon, Daemon-Ends}

-- What a report that passes is worth.
pub record Healthy (d : Surroundings) (ao_url gateway_url : String) (q : DoctorReport)
    : Type 0 where
  pub raw : String
  pub spec : RunSpec
  pub hash : String
  pub spec_read : d.read_spec ≡ ok raw
  pub spec_valid : parse_and_validate_run_spec d.spec_reader raw ≡ ok (spec, hash)
  pub passed : q.status ≡ "PASS"
  pub run_of : (q.run_id ≡ spec.run_id) × (q.run_spec_sha256 ≡ hash)
  pub daemon : resolve_ao_endpoint d.machine ao_url ≡ found q.ao_endpoint
  pub gateway : resolve_gateway_endpoint d.machine gateway_url ≡ found q.gateway_endpoint
  pub root_clean : d.root_status spec.target.target_root ≡ ok []
  pub workspace :
      check_worktree_dirty_policy d.git spec.target.execution_workspace spec.run_id
      ≡ ok (q.workspace_check.is_clean, q.workspace_check.porcelain_sha256)
  pub policy :
      spec.workspace_policy.execution_workspace_dirty_policy ≡ "require_clean"
      → q.workspace_check.is_clean ≡ true
  pub baseline : d.commit_exists spec.target.target_root spec.target.baseline_sha ≡ true
  pub tools :
      (t : RequiredTool)
      → Memᴰ t spec.required_tools
      → t.required ≡ true
      → is_found d (d.look_path t.name) ≡ true
  pub models :
      (p : String × ProfileSpec)
      → Memᴰ p spec.profiles
      → Memᴰ (p.1).model q.gateway_endpoint.observed_models
  pub branch_not_checked : q.branch_match ≡ false

none_lacking :
    (d : Surroundings) (ts : List RequiredTool)
    → any (is_lacking d) ts ≡ false
    → (t : RequiredTool) → Memᴰ t ts
    → t.required ≡ true
    → is_found d (d.look_path t.name) ≡ true
none_lacking d [] h t m r = elim m [ ]
none_lacking d (u ∷ us) h t (Memᴰ.head e) r =
    let l : is_lacking d u ≡ false = ground (arith, h) in
    let k : is_lacking d t ≡ false =
      subst (λ (v : RequiredTool). is_lacking d v ≡ false) (sym e) l in
    ground (arith, k, r)
none_lacking d (u ∷ us) h t (Memᴰ.tail m) r = none_lacking d us (ground (arith, h)) t m r

served :
    (d : Surroundings) (models : List String) (ps : List (String × ProfileSpec))
    → all_served d models ps ≡ true
    → (p : String × ProfileSpec) → Memᴰ p ps
    → Memᴰ (p.1).model models
served d models [] h p m = elim m [ ]
served d models (q ∷ ps) h p (Memᴰ.head e) =
    let l : is_served d models (q.1).model ≡ true = ground (arith, h) in
    subst (λ (v : String × ProfileSpec). Memᴰ (v.1).model models) (sym e)
      (any_same (q.1).model models l)
served d models (q ∷ ps) h p (Memᴰ.tail m) = served d models ps (ground (arith, h)) p m

clean_if_required :
    (x : String) (b : Bool)
    → (x == "require_clean" && not b) ≡ false
    → x ≡ "require_clean"
    → b ≡ true
clean_if_required x b h e = ground (arith, h, (eq_iff x "require_clean").1 e)

Daemon-Healthy :
    (d : Surroundings) (ao_url gateway_url raw : String) (s : RunSpec) (hash : String)
    (q : DoctorReport)
    → d.read_spec ≡ ok raw
    → parse_and_validate_run_spec d.spec_reader raw ≡ ok (s, hash)
    → Daemon d ao_url gateway_url s
        (record no_report { run_id = s.run_id; run_spec_sha256 = hash })
        q
    → Healthy d ao_url gateway_url q
Daemon-Healthy d ao_url gateway_url raw s hash q i p
      (a, fa, (g, fg, (rc, (w, ws, pol, (b, (lack, (e, all))))))) =
    record {
      raw = raw;
      spec = s;
      hash = hash;
      spec_read = i;
      spec_valid = p;
      passed = ap (λ (z : DoctorReport). z.status) e;
      run_of =
          (ap (λ (z : DoctorReport). z.run_id) e, ap (λ (z : DoctorReport). z.run_spec_sha256) e);
      daemon = fa ∙ ap (λ (z : DoctorReport). found z.ao_endpoint) (sym e);
      gateway = fg ∙ ap (λ (z : DoctorReport). found z.gateway_endpoint) (sym e);
      root_clean = rc;
      workspace =
          ws
          ∙ ap
              (λ (z : DoctorReport).
                ok (z.workspace_check.is_clean, z.workspace_check.porcelain_sha256))
              (sym e);
      policy = λ r.
          ap (λ (z : DoctorReport). z.workspace_check.is_clean) e
          ∙ clean_if_required s.workspace_policy.execution_workspace_dirty_policy (w.0) pol r;
      baseline = b;
      tools = none_lacking d s.required_tools lack;
      models = λ x m.
          subst (λ (z : DoctorReport). Memᴰ (x.1).model z.gateway_endpoint.observed_models) (sym e)
            (served d g.observed_models s.profiles all x m);
      branch_not_checked = ap (λ (z : DoctorReport). z.branch_match) e;
    }

-- The doctor ends in one of two ways. Its exit code is 2 or 3 and its report fails; or its exit code
-- is 0 and its report passes, and then: the spec was read and is valid, both endpoints were found, the
-- product root has no changes, the execution workspace is as reported and clean if the policy
-- requires it, the baseline commit exists, every required tool is in the PATH, and the model of every
-- profile is in the gateway's catalog. The branch match of the report is false also then.
pub run_doctor-Healthy :
    (d : Surroundings) (ao_url gateway_url : String)
    → Ends (Healthy d ao_url gateway_url) (run_doctor d ao_url gateway_url)
unfolding run_doctor examine
run_doctor-Healthy d ao_url gateway_url =
    let P = Healthy d ao_url gateway_url in
    result-intro (Ends P) d.read_spec (λ x _. failed_with_2 P no_report _ refl)
      λ raw i.
        result-intro (Ends P) (parse_and_validate_run_spec d.spec_reader raw)
          (λ x _. failed_with_2 P no_report _ refl)
          λ p e.
            let r : DoctorReport = record no_report {
              run_id = (p.0).run_id;
              run_spec_sha256 = p.1;
            } in
            Ends-map (Daemon d ao_url gateway_url (p.0) r) P (check_ao d ao_url gateway_url (p.0) r)
              (λ q k. Daemon-Healthy d ao_url gateway_url raw (p.0) (p.1) q i e k)
              (Daemon-Ends d ao_url gateway_url (p.0) r refl)
