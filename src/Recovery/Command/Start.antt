-- ===== src/Recovery/Command/Start.antt =====
-- cmd/recovery/main.go, `run`, `runStatus` and `runRecovery` up to its loop, and `NewAOHTTPClient` of
-- internal/recovery/ao_http.go. The flag package, `url.Parse` and the output are parameters.
use agents_coworkers.Prelude.{
  ℕ, ◌≡◌, Bool, ◌&&◌, ◌||◌, not, String, ◌==◌, Option, none, some, List, if◌then◌else◌, if-intro,
}
use agents_coworkers.Prelude.Int.{ℤ}
use agents_coworkers.Prelude.Text.{codes, lower, same_codes, trim_slashes}
use agents_coworkers.Recovery.Errors.{other, Result, ok, err, result-intro}
use agents_coworkers.Recovery.Checkpoint.{Checkpoint}
use agents_coworkers.Recovery.World.{Environment, World}
use agents_coworkers.Recovery.Lease.{Host, FileLease, new_file_lease}
use agents_coworkers.Recovery.Command.{
  ExitCode, exit_success, exit_usage_error, Command, status_command, run_command, refused,
  parse_command, Signals, Exit, supervise,
}

-- The scheme and the host name of an URL that `url.Parse` reads.
pub record BaseUrl : Type 0 where
  pub scheme : String
  pub hostname : String

abbrev pub is_loopback : BaseUrl → Bool
is_loopback u =
    u.scheme == "http"
    && (same_codes (lower (codes u.hostname)) (codes "127.0.0.1")
        || same_codes (lower (codes u.hostname)) (codes "localhost")
        || same_codes (lower (codes u.hostname)) (codes "::1"))

-- `NewAOHTTPClient`: the base URL of the client.
unfoldable pub new_ao_http_client : (String → Option BaseUrl) → String → Result String
new_ao_http_client parse url = elim (parse (trim_slashes url)) [
  | none ↦ err (other "invalid URL")
  | some u ↦
      if not (is_loopback u)
      then err (other "AO recovery adapter requires an HTTP loopback base URL")
      else ok (trim_slashes url)
]

pub record RunFlags : Type 0 where
  pub checkpoint_path : String
  pub workspace : String
  pub ao_url : String
  pub poll : ℤ
  pub timeout : ℤ

-- The parts of the dispatcher.
pub record Started : Type 0 where
  pub checkpoint : Checkpoint
  pub lease : Option FileLease
  pub base_url : String
  pub retry_delay : ℤ

pub record Console : Type 0 where
  -- what `fs.Parse` reads, `none` if it fails
  pub status_flags : List String → Option (String × Bool)
  pub run_flags : List String → Option RunFlags
  -- `FileStore.Load`
  pub load : String → Result Checkpoint
  pub format_json : Checkpoint → Option String
  pub host : Host
  pub parse_url : String → Option BaseUrl
  -- the signals and the timeout as the loop sees them, and what the parts of the dispatcher answer
  pub signals : ℤ → Signals
  pub environment : Started → Environment

module _ (k : Console) where
  abbrev pub print_status : Bool → Checkpoint → ExitCode
  print_status json c =
      if json
      then elim (k.format_json c) [ none ↦ exit_usage_error | some text ↦ exit_success ]
      else exit_success

  abbrev pub show_status : Option (String × Bool) → ExitCode
  show_status none = exit_usage_error
  show_status (some (path, json)) =
      if path == ""
      then exit_usage_error
      else elim (k.load path) [ err x ↦ exit_usage_error | ok c ↦ print_status json c ]

  -- `runStatus`
  unfoldable pub run_status : List String → ExitCode
  run_status args = show_status (k.status_flags args)

  -- The lease of a run that has an owner.
  unfoldable pub start_lease : String → Checkpoint → Result (Option FileLease)
  start_lease workspace c =
      if c.run_owner == ""
      then ok none
      else elim (new_file_lease k.host workspace c.run_owner) [ err x ↦ err x | ok l ↦ ok (some l) ]

  unfoldable pub start_client : RunFlags → Checkpoint → Option FileLease → Result Started
  start_client f c l = elim (new_ao_http_client k.parse_url f.ao_url) [
    | err x ↦ err x
    | ok url ↦ ok (record { checkpoint = c; lease = l; base_url = url; retry_delay = f.poll })
  ]

  -- `runRecovery`, up to its loop.
  unfoldable pub start_recovery : RunFlags → Result Started
  start_recovery f =
      if f.checkpoint_path == ""
      then err (other "-checkpoint is required")
      else elim (k.load f.checkpoint_path) [
        | err x ↦ err x
        | ok c ↦ elim (start_lease f.workspace c) [ err x ↦ err x | ok l ↦ start_client f c l ]
      ]

  abbrev pub exits_at_once : World → Exit
  exits_at_once w = record { code = exit_usage_error; world = w }

  -- `runRecovery`, whose loop has the fuel `n`, in a world that has the checkpoint on disk.
  unfoldable pub run_recovery : ℕ → List String → World → Option Exit
  run_recovery n args w = elim (k.run_flags args) [
    | none ↦ some (exits_at_once w)
    | some f ↦ elim (start_recovery f) [
      | err x ↦ some (exits_at_once w)
      | ok s ↦ supervise n (k.signals f.timeout) (k.environment s) 0 w
    ]
  ]

  abbrev pub run_parsed : ℕ → World → Command → Option Exit
  run_parsed n w (status_command args) = some (record { code = run_status args; world = w })
  run_parsed n w (run_command args) = run_recovery n args w
  run_parsed n w refused = some (exits_at_once w)

  -- `run`
  unfoldable pub run_command_line : ℕ → List String → World → Option Exit
  run_command_line n args w = run_parsed n w (parse_command args)

  -- A dispatcher has a lease if the run has an owner, and a client of a loopback URL.
  pub record Ready (f : RunFlags) (s : Started) : Type 0 where
    pub checkpoint_read : k.load f.checkpoint_path ≡ ok s.checkpoint
    pub lease_of : start_lease f.workspace s.checkpoint ≡ ok s.lease
    pub client_url : new_ao_http_client k.parse_url f.ao_url ≡ ok s.base_url

  abbrev pub Starts : RunFlags → Result Started → Type 0
  Starts f (err x) = Unit
  Starts f (ok s) = Ready f s

  start_recovery-Starts : (f : RunFlags) → Starts f (start_recovery f)
  unfolding start_recovery start_client
  start_recovery-Starts f =
      if-intro (Starts f) (f.checkpoint_path == "") (λ _. tt)
        λ _.
          result-intro (Starts f) (k.load f.checkpoint_path) (λ x _. tt)
            λ c e.
              result-intro (Starts f) (start_lease f.workspace c) (λ x _. tt)
                λ l g.
                  result-intro (Starts f) (new_ao_http_client k.parse_url f.ao_url) (λ x _. tt)
                    λ url i. record { checkpoint_read = e; lease_of = g; client_url = i }
