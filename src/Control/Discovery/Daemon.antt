-- ===== src/Control/Discovery/Daemon.antt =====
-- internal/workforce/control/discovery.go: a daemon that was found by an URL or by a run file.
use Prim.Native.String.{◌++◌ as ◌<>◌}
use agents_coworkers.Prelude.{
  ◌≡◌, refl, true, false, ◌||◌, not, String, Option, none, some, nat_eq, arith, if-intro, subst,
}
use agents_coworkers.Prelude.Int.{pos, is_pos}
use agents_coworkers.Prelude.Text.{trim_slashes, is_blank}
use agents_coworkers.Control.Types.{AoDiscoveryResult}
use agents_coworkers.Control.Loopback.{validate_loopback_url}
use agents_coworkers.Control.Manifest.{failed}
use agents_coworkers.Control.Discovery.{
  Discovery, found, missing, Answer, no_request, no_connection, answered, FileRead, no_file,
  unreadable, content, RunningJson, Machine, check_identity, judge_identity, probe_ao_identity,
  check_process_alive, identified, judge_running, judge_run_file, resolve_run_file, unobserved,
  resolve_url,
}

-- `P` of what was found.
abbrev pub Finds : {A : Type 0} → (A → Type 0) → Discovery A → Type 0
Finds P (missing k) = Unit
Finds P (found a) = P a

pub Finds-elim :
    {A : Type 0} (P : A → Type 0) (d : Discovery A) (a : A) → Finds P d → d ≡ found a → P a
Finds-elim P (missing k) a f e = absurd (cc)
Finds-elim P (found b) a f e = let same_value : b ≡ a = cc in subst P same_value f

-- The daemon at the URL answered the request for its identity with status 200 and this name, which
-- is not blank.
abbrev pub Told : Machine → String → String → Type 0
Told h url id =
    (body : String) × (h.get (trim_slashes url <> "/api/v1/identity") ≡ answered 200 (some body))
    × (h.decode_identity body ≡ some id)
    × (is_blank id ≡ false)

-- An URL that was given, which is loopback and where the daemon told its identity; no process is
-- claimed.
pub record Addressed (h : Machine) (given source : String) (r : AoDiscoveryResult) : Type 0 where
  pub source_is : r.discovery_source ≡ source
  pub loopback : failed (validate_loopback_url h.parse_url given) ≡ false
  pub url_is : r.url ≡ trim_slashes given
  pub told : Told h given r.identity
  pub no_pid : r.pid ≡ pos 0
  pub not_observed : r.pid_status ≡ "NOT_OBSERVED"

-- A run file that names a port of this host, where the daemon told its identity, and a process,
-- which is alive.
pub record Running (h : Machine) (path : String) (r : AoDiscoveryResult) : Type 0 where
  pub source_is : r.discovery_source ≡ "run_file"
  pub text : String
  pub file : RunningJson
  pub read : h.read_file path ≡ content text
  pub decoded : h.decode_running text ≡ some file
  pub has_port : is_pos file.port ≡ true
  pub url_is : r.url ≡ "http://127.0.0.1:" <> h.decimal file.port
  pub told : Told h r.url r.identity
  pub pid_is : r.pid ≡ file.pid
  pub has_pid : is_pos r.pid ≡ true
  pub alive : h.is_alive r.pid ≡ true
  pub verified : r.pid_status ≡ "VERIFIED"

module _ (h : Machine) where
  checked :
      (url body : String) (o : Option String)
      → h.get (trim_slashes url <> "/api/v1/identity") ≡ answered 200 (some body)
      → h.decode_identity body ≡ o
      → Finds (Told h url) (check_identity h o)
  checked url body none a d = tt
  checked url body (some id) a d =
      if-intro (Finds (Told h url)) (is_blank id) (λ _. tt) (λ e. (body, a, d, e))

  judged :
      (url : String) (a : Answer)
      → h.get (trim_slashes url <> "/api/v1/identity") ≡ a
      → Finds (Told h url) (judge_identity h a)
  judged url no_request e = tt
  judged url no_connection e = tt
  judged url (answered status none) e = tt
  judged url (answered status (some body)) e =
      if-intro (Finds (Told h url)) (not (nat_eq status 200)) (λ _. tt)
        λ n.
          let ok_status : status ≡ 200 = ground (arith, n) in
          checked url body (h.decode_identity body)
            (subst (λ k. h.get (trim_slashes url <> "/api/v1/identity") ≡ answered k (some body))
              ok_status e)
            refl

  pub probe_ao_identity-Told : (url : String) → Finds (Told h url) (probe_ao_identity h url)
  unfolding probe_ao_identity
  probe_ao_identity-Told url = judged url (h.get _) refl

  pub run_file-Running : (path : String) → Finds (Running h path) (resolve_run_file h path)
  unfolding resolve_run_file
  run_file-Running path = of_file (h.read_file path) refl
    where
      with_process :
          (text : String) (q : RunningJson) (d : Discovery String)
          → h.read_file path ≡ content text
          → h.decode_running text ≡ some q
          → (is_pos q.port ≡ true) × (is_pos q.pid ≡ true) × (h.is_alive q.pid ≡ true)
          → Finds (Told h ("http://127.0.0.1:" <> h.decimal q.port)) d
          → Finds (Running h path) (identified h ("http://127.0.0.1:" <> h.decimal q.port) q.pid d)
      with_process text q (missing k) e f p n = tt
      with_process text q (found id) e f (p, i, a) n = record {
        source_is = refl;
        text = text;
        file = q;
        read = e;
        decoded = f;
        has_port = p;
        url_is = refl;
        told = n;
        pid_is = refl;
        has_pid = i;
        alive = a;
        verified = refl;
      }

      of_running :
          (text : String) (o : Option RunningJson)
          → h.read_file path ≡ content text
          → h.decode_running text ≡ o
          → Finds (Running h path) (judge_running h o)
      of_running text none e f = tt
      of_running text (some q) e f =
          if-intro (Finds (Running h path)) (not (is_pos q.port) || not (is_pos q.pid)) (λ _. tt)
            λ p.
              if-intro (Finds (Running h path)) (not (check_process_alive h q.pid)) (λ _. tt)
                λ a.
                  with_process text q (probe_ao_identity h _) e f
                    (ground (arith, p), ground (arith, a), ground (arith, a))
                    (probe_ao_identity-Told _)

      of_file : (f : FileRead) → h.read_file path ≡ f → Finds (Running h path) (judge_run_file h f)
      of_file no_file e = tt
      of_file unreadable e = tt
      of_file (content text) e = of_running text (h.decode_running text) e refl

  pub url-Addressed :
      (url source : String) → Finds (Addressed h url source) (resolve_url h url source)
  unfolding resolve_url
  url-Addressed url source =
      if-intro (Finds (Addressed h url source)) (failed (validate_loopback_url h.parse_url url))
        (λ _. tt) (λ l. without_process (probe_ao_identity h url) l (probe_ao_identity-Told url))
    where
      without_process :
          (d : Discovery String)
          → failed (validate_loopback_url h.parse_url url) ≡ false
          → Finds (Told h url) d
          → Finds (Addressed h url source) (unobserved h url source d)
      without_process (missing k) l n = tt
      without_process (found id) l n = record {
        source_is = refl;
        loopback = l;
        url_is = refl;
        told = n;
        no_pid = refl;
        not_observed = refl;
      }
