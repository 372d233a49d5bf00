-- ===== src/Control/RunSpec/Valid.antt =====
-- internal/workforce/control/run_spec.go: what holds of a document that is accepted.
use agents_coworkers.Prelude.{
  ◌≡◌, ◌≢◌, refl, sym, inl, inr, Bool, true, false, not, String, ◌==◌, Option, none, some, List,
  if-intro, option-intro, subst,
}
use agents_coworkers.Prelude.Text.{trim_space}
use agents_coworkers.Recovery.Errors.{ok, result-intro}
use agents_coworkers.Control.Types.{RunSpec, RequiredTool}
use agents_coworkers.Control.Checks.{
  first_failure, first_failure-Passes, same, holds, Accepts, Accepts-elim, Accepts-map,
}
use agents_coworkers.Control.RunSpec.{
  SpecReader, has_forbidden, check_tools, check_profiles, normal, head_checks, target_checks,
  policy_checks, check_policies, check_normal, check_workspace, validate_spec, accept_spec,
  parse_and_validate_run_spec,
}
use agents_coworkers.Control.RunSpec.Normal.{
  GitRequired, Checked, not_empty, Tools, check_tools-Tools, checked_lem,
}

-- The document that was decoded, its normal form, and what else was checked of them.
pub record ValidSpec (h : SpecReader) (raw : String) (r : RunSpec × String) : Type 0 where
  pub spec : RunSpec
  pub root : String
  pub workspace : String
  pub decoded : h.decode raw ≡ some (spec, true)
  pub no_endpoint : has_forbidden (h.raw_keys raw) ≡ false
  pub root_of : h.abs spec.target.target_root ≡ ok root
  pub workspace_of : h.abs spec.target.execution_workspace ≡ ok workspace
  pub normalised : r.0 ≡ normal spec root workspace
  pub hash : r.1 ≡ h.digest raw
  pub schema : spec.schema_version ≡ "run-spec/v1-draft"
  pub run_named : (r.0).run_id ≢ ""
  pub checked : Checked (r.0)

-- The document itself, checked.
abbrev Passed : RunSpec → RunSpec → Type 0
Passed n r = (r ≡ n) × Checked n

git_found :
    (g : Bool) (tools : List RequiredTool) → Tools false tools g → not g ≡ false → GitRequired tools
git_found g tools (f, w) h = elim (f (holds g h)) [ inl e ↦ absurd (cc) | inr q ↦ q ]

check_normal-Passed : (n : RunSpec) → Accepts (Passed n) (check_normal n)
unfolding check_normal check_policies
check_normal-Passed n =
    option-intro (Accepts (Passed n)) (first_failure (target_checks n))
      (λ t.
        result-intro (Accepts (Passed n)) (check_tools false n.required_tools) (λ x _. tt)
          λ g e.
            let w =
              Accepts-elim (Tools false n.required_tools) (check_tools false n.required_tools) g
                (check_tools-Tools false n.required_tools) e in
            if-intro (Accepts (Passed n)) (not g) (λ _. tt)
              λ h.
                option-intro (Accepts (Passed n)) (first_failure (policy_checks n))
                  (λ p.
                    option-intro (Accepts (Passed n)) (check_profiles n.profiles)
                      (λ q. (refl, checked_lem n t (w.1) (git_found g n.required_tools w h) p q))
                      (λ x _. tt))
                  (λ x _. tt))
      (λ x _. tt)

-- The result of the validation, without what the caller adds.
abbrev Validated : SpecReader → RunSpec → RunSpec → Type 0
Validated h s n =
    (root : String) × (workspace : String) × (h.abs s.target.target_root ≡ ok root)
    × (h.abs s.target.execution_workspace ≡ ok workspace)
    × (n ≡ normal s root workspace)
    × (s.schema_version ≡ "run-spec/v1-draft")
    × (n.run_id ≢ "")
    × Checked n

validate_spec-Validated :
    (h : SpecReader) (s : RunSpec) → Accepts (Validated h s) (validate_spec h s)
unfolding validate_spec check_workspace
validate_spec-Validated h s =
    option-intro (Accepts (Validated h s)) (first_failure (head_checks s))
      (λ c.
        let a = first_failure-Passes (head_checks s) c in
        result-intro (Accepts (Validated h s)) (h.abs s.target.target_root) (λ x _. tt)
          λ root r.
            if-intro (Accepts (Validated h s)) (trim_space s.target.execution_workspace == "")
              (λ _. tt)
              λ _.
                result-intro (Accepts (Validated h s)) (h.abs s.target.execution_workspace)
                  (λ x _. tt)
                  λ workspace w.
                    Accepts-map (Passed (normal s root workspace)) (Validated h s)
                      (check_normal (normal s root workspace))
                      (λ n (e, k). (
                        root,
                        workspace,
                        r,
                        w,
                        e,
                        same s.schema_version "run-spec/v1-draft" (a.0),
                        subst (λ (v : RunSpec). v.run_id ≢ "") (sym e)
                            (not_empty (trim_space s.run_id) (a.1.0)),
                        subst Checked (sym e) k,
                      ))
                      (check_normal-Passed (normal s root workspace)))
      (λ x _. tt)

valid_lem :
    (h : SpecReader) (raw : String) (s n : RunSpec)
    → h.decode raw ≡ some (s, true)
    → has_forbidden (h.raw_keys raw) ≡ false
    → Validated h s n
    → ValidSpec h raw (n, h.digest raw)
valid_lem h raw s n d f (root, workspace, r, w, e, c, m, k) = record {
  spec = s;
  root = root;
  workspace = workspace;
  decoded = d;
  no_endpoint = f;
  root_of = r;
  workspace_of = w;
  normalised = e;
  hash = refl;
  schema = c;
  run_named = m;
  checked = k;
}

accept_spec-ValidSpec :
    (h : SpecReader) (raw : String) (o : Option (RunSpec × Bool))
    → h.decode raw ≡ o
    → has_forbidden (h.raw_keys raw) ≡ false
    → Accepts (ValidSpec h raw) (accept_spec h raw o)
accept_spec-ValidSpec h raw none d f = tt
accept_spec-ValidSpec h raw (some (s, false)) d f = tt
accept_spec-ValidSpec h raw (some (s, true)) d f =
    result-intro (Accepts (ValidSpec h raw)) (validate_spec h s) (λ x _. tt)
      λ n e.
        valid_lem h raw s n d f
          (Accepts-elim (Validated h s) (validate_spec h s) n (validate_spec-Validated h s) e)

parse_and_validate_run_spec-Accepts :
    (h : SpecReader) (raw : String) → Accepts (ValidSpec h raw) (parse_and_validate_run_spec h raw)
unfolding parse_and_validate_run_spec
parse_and_validate_run_spec-Accepts h raw =
    if-intro (Accepts (ValidSpec h raw)) (raw == "") (λ _. tt)
      λ _.
        if-intro (Accepts (ValidSpec h raw)) (has_forbidden (h.raw_keys raw)) (λ _. tt)
          (λ f. accept_spec-ValidSpec h raw (h.decode raw) refl f)

-- A run spec that is accepted is the normal form of the decoded document, with absolute paths and
-- the digest of the raw bytes. It names no endpoint; it has the schema, a run, a baseline and a
-- branch; the product root must be clean and the workspace policy is one of the two; every tool is the
-- name of a program and git is required; both discovery policies are the fixed ones; the concurrency,
-- if given, is between 1 and 3; and there is a profile, and every profile has a model and an effort.
pub parse_and_validate_run_spec-ValidSpec :
    (h : SpecReader) (raw : String) (r : RunSpec × String)
    → parse_and_validate_run_spec h raw ≡ ok r
    → ValidSpec h raw r
parse_and_validate_run_spec-ValidSpec h raw r e =
    Accepts-elim (ValidSpec h raw) (parse_and_validate_run_spec h raw) r
      (parse_and_validate_run_spec-Accepts h raw) e
