-- ===== src/Recovery/Status.antt =====
-- internal/recovery/status.go: the redaction of texts and the sanitized report of a checkpoint, on
-- bytes. The regular expressions, `json.Unmarshal`, the dates and the text of a number are
-- parameters; the layout of `FormatStatus` is not modelled.
pub mod Payloads
use agents_coworkers.Prelude.{
  ℕ, zero, suc, Bool, true, false, ◌&&◌, ◌||◌, not, String, Option, none, some, List, [], ◌∷◌, ◌++◌,
  take, is_nil, nat_eq, if◌then◌else◌,
}
use agents_coworkers.Prelude.Int.{ℤ}
use agents_coworkers.Prelude.Text.{codes}
use agents_coworkers.Recovery.Checkpoint.{
  TaskState, pending, delivery_uncertain, waiting_retry, SideEffectState, Checkpoint, terminal,
}

abbrev pub Bytes : Type 0
Bytes = List ℕ

-- `depth`, `inString` and `escaped`
pub record Scan : Type 0 where
  pub depth : ℕ
  pub in_string : Bool
  pub escaped : Bool

-- `depth--`, of an object that is open
abbrev pub less : ℕ → ℕ
less zero = zero
less (suc n) = n

abbrev pub is_zero : ℕ → Bool
is_zero zero = true
is_zero (suc n) = false

-- A byte of a string.
abbrev pub next_in_string : Scan → ℕ → Scan
next_in_string s c =
    if s.escaped
    then record s { escaped = false }
    else if nat_eq c 92
    then record s { escaped = true }
    else if nat_eq c 34
    then record s { in_string = false }
    else s

-- A byte of the structure. An object that is open has a depth of 1 at least.
abbrev pub next_outside : Scan → ℕ → Scan
next_outside s c =
    if nat_eq c 34
    then record s { in_string = true }
    else if nat_eq c 123
    then record s { depth = suc s.depth }
    else if nat_eq c 125
    then record s { depth = less s.depth }
    else s

abbrev pub next : Scan → ℕ → Scan
next s c = if s.in_string then next_in_string s c else next_outside s c

-- `depth--; if depth == 0 { end = j; break }`
abbrev pub closes : Scan → ℕ → Bool
closes s c = not s.in_string && (nat_eq c 125 && is_zero (less s.depth))

abbrev pub one_more : Option ℕ → Option ℕ
one_more none = none
one_more (some n) = some (suc n)

-- The loop over `j`: the bytes up to the brace that closes the object.
unfoldable pub scan_end : Scan → Bytes → Option ℕ
scan_end s [] = none
scan_end s (c ∷ cs) =
    let rest = scan_end (next s c) cs in if closes s c then some 1 else one_more rest

-- After the first brace.
abbrev pub opened : Scan
opened = record { depth = 1; in_string = false; escaped = false }

abbrev pub marker : Bytes
marker = codes "[REDACTED_PAYLOAD]"

module _ (is_object : Bytes → Bool) where
  -- The length of an object behind its first brace, if it is one.
  abbrev pub judge_end : Bytes → Option ℕ → Option ℕ
  judge_end cs none = none
  judge_end cs (some n) = if is_object (123 ∷ take n cs) then some n else none

  abbrev pub payload : ℕ → Bytes → Option ℕ
  payload c cs = if nat_eq c 123 then judge_end cs (scan_end opened cs) else none

  -- The loop over `i`, where bytes of a payload are left to skip.
  unfoldable pub redact : ℕ → Bytes → Bytes
  redact zero [] = []
  redact (suc k) [] = []
  redact (suc k) (c ∷ cs) = redact k cs
  redact zero (c ∷ cs) = elim (payload c cs) [
    | none ↦ c ∷ redact zero cs
    | some n ↦ marker ++ redact n cs
  ]

-- `redactJSONPayloads`; `is_object` is whether `json.Unmarshal` reads an object.
unfoldable pub redact_json_payloads : (Bytes → Bool) → Bytes → Bytes
redact_json_payloads is_object s = redact is_object zero s

-- `ReplaceAllString` of each regular expression, with its replacement, and what the report is
-- formatted with.
pub record Formats : Type 0 where
  pub private_keys : Bytes → Bytes
  pub jwts : Bytes → Bytes
  pub bearers : Bytes → Bytes
  pub api_keys : Bytes → Bytes
  pub key_values : Bytes → Bytes
  pub emails : Bytes → Bytes
  pub locators : Bytes → Bytes
  pub is_object : Bytes → Bool
  pub bytes : String → Bytes
  pub rfc3339 : ℕ → Bytes

-- `SanitizeError`
unfoldable pub sanitize_error : Formats → Bytes → Bytes
sanitize_error f s =
    if is_nil s
    then s
    else redact_json_payloads f.is_object
        (f.locators (f.emails (f.key_values (f.api_keys (f.bearers (f.jwts (f.private_keys s)))))))

-- `IsRetryableState`
abbrev pub is_retryable_state : TaskState → Bool
is_retryable_state waiting_retry = true
is_retryable_state delivery_uncertain = true
is_retryable_state pending = true
is_retryable_state _ = false

pub record RecoveryReport : Type 0 where
  pub task_id : Bytes
  pub delivery_id : Bytes
  pub session_id : Bytes
  pub state : TaskState
  pub retryable : Bool
  pub is_terminal : Bool
  pub side_effect : SideEffectState
  pub attempts : ℤ
  pub retry_budget : ℤ
  pub next_retry_at : Option Bytes
  pub last_observed_utc : Bytes
  pub last_error_kind : Bytes
  pub git_head : Bytes
  pub artifact_sha256 : Bytes

abbrev pub optional_date : Formats → Option ℕ → Option Bytes
optional_date f none = none
optional_date f (some t) = some (f.rfc3339 t)

-- `FormatStatusJSON`, up to the encoding of the report
unfoldable pub format_status_json : Formats → Checkpoint → RecoveryReport
format_status_json f c = record {
  task_id = sanitize_error f (f.bytes c.task_id);
  delivery_id = sanitize_error f (f.bytes c.delivery_id);
  session_id = sanitize_error f (f.bytes c.session_id);
  state = c.state;
  retryable = is_retryable_state c.state;
  is_terminal = terminal c;
  side_effect = c.side_effect;
  attempts = c.attempts;
  retry_budget = c.retry_budget;
  next_retry_at = optional_date f c.next_retry_at;
  last_observed_utc = f.rfc3339 c.last_observed_utc;
  last_error_kind = sanitize_error f (f.bytes c.last_error_kind);
  git_head = sanitize_error f (f.bytes c.git_head);
  artifact_sha256 = sanitize_error f (f.bytes c.artifact_sha256);
}
