-- ===== src/Control/Attach/Soundness.antt =====
-- internal/workforce/control/attach.go, `RunAttach`: what its parameters do by their documentation, and
-- what follows for the paths, the URLs, the worktree and the lease that it reads.
use Prim.Native.String.{◌++◌ as ◌<>◌}
use agents_coworkers.Prelude.{
  ℕ, ◌≡◌, ◌≢◌, refl, sym, ap, subst, ◌∙◌, ◌⊎◌, inl, inr, Bool, true, false, ◌&&◌, ◌||◌, not, String,
  ◌==◌, eq_iff, eq_refl, Option, none, some, List, [], ◌∷◌, is_nil, if◌then◌else◌, arith, if-intro,
  option-intro, Bool-cases,
}
use agents_coworkers.Prelude.Int.{ℤ, pos, is_pos, int_eq}
use agents_coworkers.Prelude.Text.{trim_slashes, is_blank, trim_space}
use agents_coworkers.Prelude.Text.Blank.{is_blank-trim_space}
use agents_coworkers.Recovery.Errors.{Result, ok, err, result-intro}
use agents_coworkers.Recovery.Lease.{
  Host as LeaseHost, Dir, LeaseInspection, LeaseRecord, lease_free, lease_owned, lease_locked,
  judge_record, inspect_file, inspect_lease,
}
use agents_coworkers.Control.Checks.{Accepts, Accepts-elim}
use agents_coworkers.Control.Paths.{
  Host, is_64_hex, is_clean_abs_path, are_paths_same_or_equivalent,
}
use agents_coworkers.Control.Loopback.{validate_loopback_url}
use agents_coworkers.Control.Worktree.{
  Git, judge_filtered, judge_status, check_worktree_dirty_policy,
}
use agents_coworkers.Control.Discovery.Usable.{Placed}
use agents_coworkers.Control.Manifest.{failed, is_locked}
use agents_coworkers.Control.Attach.{
  Site, physical, followed, canonical_physical_path, identity_of, get_git_repository_identity,
}

-- What the parameters do, and the lease files that `d` has.
pub record Sound (h : Site) (d : Dir) : Type 0 where
  -- `time.RFC3339`
  pub dated : h.disk.reader.is_rfc3339 h.now ≡ true
  -- the hexadecimal digests of SHA-256
  pub spec_digest : (raw : String) → is_64_hex (h.surroundings.spec_reader.digest raw) ≡ true
  pub git_digest : (out : List ℕ) → is_64_hex (h.surroundings.git.digest out) ≡ true
  -- `filepath.Abs`, and `filepath.EvalSymlinks` of an absolute path
  pub abs_path : (p q : String) → h.abs p ≡ ok q → is_clean_abs_path h.disk.reader.host q ≡ true
  pub linked_path :
      (p q : String)
      → is_clean_abs_path h.disk.reader.host p ≡ true
      → h.eval_symlinks p ≡ ok q
      → is_clean_abs_path h.disk.reader.host q ≡ true
  -- `url.Parse`, of a port of this host and without the slashes at the end
  pub one_parser : h.disk.reader.parse_url ≡ h.surroundings.machine.parse_url
  pub port_url :
      (port : ℤ)
      → is_pos port ≡ true
      → validate_loopback_url h.surroundings.machine.parse_url
          ("http://127.0.0.1:" <> h.surroundings.machine.decimal port)
        ≡ none
  pub slashes :
      (url : String)
      → validate_loopback_url h.surroundings.machine.parse_url url ≡ none
      → validate_loopback_url h.surroundings.machine.parse_url (trim_slashes url) ≡ none
  -- a lease file has the process of its owner
  pub processes :
      (p c : String) (r : LeaseRecord)
      → d p ≡ some c
      → h.lease_host.decode c ≡ some r
      → is_pos r.pid ≡ true

pub canonical_path :
    (h : Site) (d : Dir) (p q : String)
    → Sound h d
    → canonical_physical_path h p ≡ ok q
    → is_clean_abs_path h.disk.reader.host q ≡ true
unfolding canonical_physical_path
canonical_path h d p q s e =
    Accepts-elim P (canonical_physical_path h p) q (absolute (h.abs p) refl) e
  where
    P : String → Type 0
    P x = is_clean_abs_path h.disk.reader.host x ≡ true

    resolved :
        (a : String) (r : Result String) → P a → h.eval_symlinks a ≡ r → Accepts P (followed h a r)
    resolved a (ok t) c f = s.linked_path a t c f
    resolved a (err x) c f = c

    absolute : (r : Result String) → h.abs p ≡ r → Accepts P (physical h r)
    absolute (err x) f = tt
    absolute (ok a) f = resolved a (h.eval_symlinks a) (s.abs_path p a f) refl

pub repository_path :
    (h : Site) (d : Dir) (dir q : String)
    → Sound h d
    → get_git_repository_identity h dir ≡ ok q
    → is_clean_abs_path h.disk.reader.host q ≡ true
unfolding get_git_repository_identity
repository_path h d dir q s e = read (h.common_dir dir) e
  where
    read :
        (r : Result String)
        → identity_of h dir r ≡ ok q
        → is_clean_abs_path h.disk.reader.host q ≡ true
    read (err x) f = absurd (cc)
    read (ok out) f = canonical_path h d _ q s f

pub same_place : (h : Host) (p : String) → are_paths_same_or_equivalent h p p ≡ true
unfolding are_paths_same_or_equivalent
same_place h p = ground (arith, eq_refl (h.clean p))

no_failure : (o : Option agents_coworkers.Recovery.Errors.Error) → failed o ≡ false → o ≡ none
no_failure none e = refl
no_failure (some x) e = absurd (cc)

pub Placed-url :
    (h : Site) (d : Dir) (url : String)
    → Sound h d
    → Placed h.surroundings.machine url
    → validate_loopback_url h.disk.reader.parse_url url ≡ none
Placed-url h d url s (inl (port, p, e)) = rw (s.one_parser, e) (s.port_url port p)
Placed-url h d url s (inr (given, v, e)) = rw (s.one_parser, e) (s.slashes given (no_failure _ v))

-- A clean worktree, or the digest of what is not.
abbrev pub Digested : Git → Bool × String → Type 0
Digested g r =
    ((r.0 ≡ true) × (r.1 ≡ "")) ⊎ ((r.0 ≡ false) × ((out : List ℕ) × (r.1 ≡ g.digest out)))

judged_status : (g : Git) (run_id : String) (out : List ℕ) → Digested g (judge_status g run_id out)
judged_status g run_id out =
    if-intro (Digested g) (is_nil out) (λ _. inl (refl, refl)) (λ _. filtered _)
  where
    filtered : (l : List ℕ) → Digested g (judge_filtered g l)
    filtered [] = inl (refl, refl)
    filtered (c ∷ cs) = inr (refl, (c ∷ cs, refl))

pub policy-Digested :
    (g : Git) (w run_id : String) (r : Bool × String)
    → check_worktree_dirty_policy g w run_id ≡ ok r
    → Digested g r
unfolding check_worktree_dirty_policy
policy-Digested g w run_id r e =
    Accepts-elim (Digested g) (check_worktree_dirty_policy g w run_id) r
      (result-intro (Accepts (Digested g)) (g.status w) (λ x _. tt)
        (λ out _. judged_status g run_id out))
      e

-- A lease that is free without a process, or that a process holds.
abbrev pub Held : LeaseInspection → Type 0
Held l =
    ((l.observed_state ≡ lease_free) × (l.observed_pid ≡ pos 0))
    ⊎ (((l.observed_state ≡ lease_owned) ⊎ (l.observed_state ≡ lease_locked))
        × (is_pos l.observed_pid ≡ true))

judged_record :
    (s : LeaseHost) (res : LeaseInspection) (t : String) (o : Option LeaseRecord)
    → ((r : LeaseRecord) → o ≡ some r → is_pos r.pid ≡ true)
    → Accepts Held (judge_record s res t o)
unfolding judge_record
judged_record s res t none k = tt
judged_record s res t (some r) k =
    if-intro (Accepts Held) (r.owner_id == "" || r.task_id == "") (λ _. tt)
      (λ _. inr (owned (r.owner_id == res.owner_id && r.task_id == t), k r refl))
  where
    owned :
        (b : Bool)
        → ((if b then lease_owned else lease_locked) ≡ lease_owned)
          ⊎ ((if b then lease_owned else lease_locked) ≡ lease_locked)
    owned true = inl refl
    owned false = inr refl

pub inspect-Held :
    (s : LeaseHost) (w r t o : String) (d : Dir)
    → ((p c : String) (r : LeaseRecord) → d p ≡ some c → s.decode c ≡ some r → is_pos r.pid ≡ true)
    → Accepts Held (inspect_lease s w r t o d)
unfolding inspect_lease inspect_file
inspect-Held s w r t o d k =
    if-intro (Accepts Held) (w == "" || r == "" || t == "") (λ _. tt)
      λ _.
        result-intro (Accepts Held) (s.absolute w) (λ x _. tt)
          λ root _.
            option-intro (Accepts Held) (d _) (λ _. inl (refl, refl))
              λ c e.
                option-intro (Accepts Held) s.read_error
                  (λ _. judged_record s _ t (s.decode c) (λ q f. k _ c q e f)) (λ x _. tt)

pub Held-Unlocked :
    (l : LeaseInspection)
    → Held l
    → is_locked l.observed_state ≡ false
    → ((l.observed_state ≡ lease_free) × (int_eq l.observed_pid 0 ≡ true))
      ⊎ ((l.observed_state ≡ lease_owned) × (is_pos l.observed_pid ≡ true))
Held-Unlocked l (inl (f, p)) n = inl (f, ap (λ z. int_eq z 0) p)
Held-Unlocked l (inr (inl o, p)) n = inr (o, p)
Held-Unlocked l (inr (inr o, p)) n = absurd (cc (ap is_locked o))

-- The worktree's state under the policy.
pub recorded_state :
    (g : Git) (policy : String) (r : Bool × String)
    → ((out : List ℕ) → is_64_hex (g.digest out) ≡ true)
    → (policy ≡ "require_clean") ⊎ (policy ≡ "allow_dirty_recorded")
    → (policy == "require_clean" && not (r.0)) ≡ false
    → Digested g r
    → ((r.0 ≡ true) × (r.1 ≡ ""))
      ⊎ ((r.0 ≡ false) × (policy ≡ "allow_dirty_recorded") × (is_64_hex (r.1) ≡ true))
recorded_state g policy r k p c (inl e) = inl e
recorded_state g policy r k (inr a) c (inr (n, (out, e))) = inr (n, a, ap is_64_hex e ∙ k out)
recorded_state g policy r k (inl a) c (inr (n, (out, e))) =
    let strict : (policy == "require_clean") ≡ true = (eq_iff policy "require_clean").1 a in
    absurd (ground (arith, strict, n, c))

-- Which daemon has a process, as the document says it.
pub discovered_lem :
    (source : String) (pid : ℤ) (status : String)
    → ((source ≡ "run_file") × (is_pos pid ≡ true) × (status ≡ "VERIFIED"))
      ⊎ (((source ≡ "explicit_url") ⊎ (source ≡ "environment_url"))
          × (pid ≡ pos 0)
          × (status ≡ "NOT_OBSERVED"))
    → ((source ≡ "run_file") × (is_pos pid ≡ true) × (status ≡ "VERIFIED"))
      ⊎ (((source ≡ "explicit_url") ⊎ (source ≡ "environment_url"))
          × (int_eq pid 0 ≡ true)
          × (status ≡ "NOT_OBSERVED"))
discovered_lem source pid status (inl (a, b, e)) = inl (a, b, e)
discovered_lem source pid status (inr (a, b, c)) = inr (a, ap (λ z. int_eq z 0) b, c)

pub trimmed_name : (x y : String) → x ≡ trim_space y → x ≢ "" → is_blank x ≡ false
trimmed_name x y e n = elim (Bool-cases (x == "")) [
  | inl z ↦ absurd (n ((eq_iff x "").0 z))
  | inr z ↦
      subst (λ t. is_blank t ≡ false) (sym e)
        (is_blank-trim_space y (subst (λ t. (t == "") ≡ false) e z))
]

pub none_blank : (a b : Bool) → a ≡ false → b ≡ false → (a || b) ≡ false
none_blank a b p q = ground (arith, p, q)
