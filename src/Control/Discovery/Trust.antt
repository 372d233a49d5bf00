-- ===== src/Control/Discovery/Trust.antt =====
-- internal/workforce/control/discovery.go: what an endpoint that was found can be trusted for.
use agents_coworkers.Prelude.{
  ◌≡◌, refl, ◌⊎◌, inl, inr, true, false, not, String, ◌==◌, List, [], ◌∷◌, any, arith, if-intro,
  eq_iff,
}
use mathlib.Core.List.{Memᴰ}
use agents_coworkers.Control.Types.{AoDiscoveryResult}
use agents_coworkers.Control.Discovery.{
  Discovery, found, missing, Machine, resolve_run_file, resolve_url, candidate_paths, add_result,
  collect, same_daemon, the_daemon, judge_candidates, resolve_ao_endpoint,
}
use agents_coworkers.Control.Discovery.Daemon.{
  Finds, Finds-elim, Addressed, Running, run_file-Running, url-Addressed,
}

-- A run file of one of the two places, which exists.
abbrev pub Candidate : Machine → AoDiscoveryResult → Type 0
Candidate h r =
    (path : String) × Memᴰ path (candidate_paths h) × (h.exists path ≡ true) × Running h path r

-- The flag comes first, then the URL of the environment, then its run file, then the candidates.
abbrev pub Trusted : Machine → String → AoDiscoveryResult → Type 0
Trusted h url r =
    (((url == "") ≡ false) × Addressed h url "explicit_url" r)
    ⊎ ((url ≡ "")
        × ((((h.env "AO_BASE_URL" == "") ≡ false)
              × Addressed h (h.env "AO_BASE_URL") "environment_url" r)
            ⊎ ((h.env "AO_BASE_URL" ≡ "")
                × ((((h.env "AO_RUN_FILE" == "") ≡ false) × Running h (h.env "AO_RUN_FILE") r)
                    ⊎ ((h.env "AO_RUN_FILE" ≡ "") × Candidate h r)))))

module _ (h : Machine) where
  abbrev AllOf : (AoDiscoveryResult → Type 0) → List AoDiscoveryResult → Type 0
  AllOf P [] = Unit
  AllOf P (r ∷ rs) = P r × AllOf P rs

  module _ (P : AoDiscoveryResult → Type 0) where
    added :
        (d : Discovery AoDiscoveryResult) (rest : Discovery (List AoDiscoveryResult))
        → Finds P d
        → Finds (AllOf P) rest
        → Finds (AllOf P) (add_result h d rest)
    added (missing k) rest t a = tt
    added (found r) (missing k) t a = tt
    added (found r) (found rs) t a = (t, a)

    collected :
        (ps : List String)
        → ((p : String) → Memᴰ p ps → h.exists p ≡ true → Finds P (resolve_run_file h p))
        → Finds (AllOf P) (collect h ps)
    unfolding collect
    collected [] f = tt
    collected (p ∷ ps) f =
        let rest = collected ps (λ q m. f q (Memᴰ.tail m)) in
        if-intro (Finds (AllOf P)) (h.exists p)
          (λ e. added (resolve_run_file h p) (collect h ps) (f p (Memᴰ.head refl) e) rest)
          (λ _. rest)

    the_daemon-Finds : (rs : List AoDiscoveryResult) → AllOf P rs → Finds P (the_daemon h rs)
    unfolding the_daemon
    the_daemon-Finds [] a = tt
    the_daemon-Finds (r ∷ []) (t, a) = t
    the_daemon-Finds (r ∷ q ∷ rs) (t, a) =
        if-intro (Finds P) (same_daemon h r q) (λ _. the_daemon-Finds (q ∷ rs) a) (λ _. tt)

    candidates-Finds :
        (d : Discovery (List AoDiscoveryResult))
        → Finds (AllOf P) d
        → Finds P (judge_candidates h d)
    candidates-Finds (missing k) a = tt
    candidates-Finds (found rs) a =
        if-intro (Finds P) (not (any h.exists (candidate_paths h))) (λ _. tt)
          (λ _. the_daemon-Finds rs a)

  Finds-map :
      {A : Type 0} (P Q : A → Type 0) (d : Discovery A)
      → ((a : A) → P a → Q a)
      → Finds P d
      → Finds Q d
  Finds-map P Q (missing k) f p = tt
  Finds-map P Q (found a) f p = f a p

  Candidate-Finds : Finds (Candidate h) (judge_candidates h (collect h (candidate_paths h)))
  Candidate-Finds = candidates-Finds (Candidate h) (collect h (candidate_paths h)) (
      collected (Candidate h) (candidate_paths h) λ p m e.
        Finds-map (Running h p) (Candidate h) (resolve_run_file h p) (λ r t. (p, m, e, t))
          (run_file-Running h p))

  empty_text : (x : String) → not (x == "") ≡ false → x ≡ ""
  empty_text x n = (eq_iff x "").0 (ground (arith, n))

  endpoint-Trusted : (url : String) → Finds (Trusted h url) (resolve_ao_endpoint h url)
  unfolding resolve_ao_endpoint
  endpoint-Trusted url =
      let Q = Trusted h url in
      let base = h.env "AO_BASE_URL" in
      let file = h.env "AO_RUN_FILE" in
      if-intro (Finds Q) (not (url == ""))
        (λ n.
          Finds-map (Addressed h url "explicit_url") Q (resolve_url h url "explicit_url")
            (λ r a. inl (ground (arith, n), a)) (url-Addressed h url "explicit_url"))
        λ n.
          if-intro (Finds Q) (not (base == ""))
            (λ b.
              Finds-map (Addressed h base "environment_url") Q
                (resolve_url h base "environment_url")
                (λ r a. inr (empty_text url n, inl (ground (arith, b), a)))
                (url-Addressed h base "environment_url"))
            λ b.
              if-intro (Finds Q) (not (file == ""))
                (λ f.
                  Finds-map (Running h file) Q (resolve_run_file h file)
                    (λ r t.
                      inr (empty_text url n, inr (empty_text base b, inl (ground (arith, f), t))))
                    (run_file-Running h file))
                λ f.
                  if-intro (Finds Q) (h.home == "") (λ _. tt)
                    λ _.
                      Finds-map (Candidate h) Q (judge_candidates h (collect h (candidate_paths h)))
                        (λ r t.
                          inr
                            (empty_text url n, inr (empty_text base b, inr (empty_text file f, t))))
                        Candidate-Finds

-- An AO endpoint that is found was found by the first of these that is given: the flag's URL, the
-- environment's URL, the environment's run file, or the run files of the two places. A URL is
-- loopback, is reported without slashes at its end, and no process is claimed. A run file was read,
-- and names a positive port of this host, whose URL is reported, and a process that is alive. In
-- each case the daemon at that URL answered the request for its identity with status 200 and with
-- the name that is reported, which is not blank.
pub resolve_ao_endpoint-Trusted :
    (h : Machine) (url : String) (r : AoDiscoveryResult)
    → resolve_ao_endpoint h url ≡ found r
    → Trusted h url r
resolve_ao_endpoint-Trusted h url r e =
    Finds-elim (Trusted h url) (resolve_ao_endpoint h url) r (endpoint-Trusted h url) e
