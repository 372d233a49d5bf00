-- ===== src/Control/Loopback.antt =====
-- internal/workforce/control/discovery.go, `ValidateLoopbackURL`: `url.Parse` is a parameter.
use agents_coworkers.Prelude.{
  ℕ, Bool, ◌&&◌, not, String, ◌==◌, Option, none, some, List, [], ◌∷◌, is_nil, if◌then◌else◌,
}
use agents_coworkers.Prelude.Text.{codes, trim, lower, same_codes}
use agents_coworkers.Recovery.Errors.{Error, other}
use agents_coworkers.Control.Checks.{first_failure}

-- The fields of Go's `url.URL` that are read.
pub record Url : Type 0 where
  pub scheme : String
  pub has_user : Bool
  pub raw_query : String
  pub fragment : String
  pub path : String
  pub hostname : String

-- `strings.ToLower(text) == word`, for a word of ASCII.
abbrev pub is_word : String → String → Bool
is_word text word = same_codes (lower (codes text)) (codes word)

unfoldable pub check_url : Url → Option Error
check_url u = first_failure (
    (not (is_word u.scheme "http") && not (is_word u.scheme "https"), "invalid URL scheme")
    ∷ (u.has_user, "URL must not contain userinfo")
    ∷ (not (u.raw_query == ""), "URL must not contain query parameters")
    ∷ (not (u.fragment == ""), "URL must not contain fragment")
    ∷ (not (u.path == "") && not (u.path == "/"), "URL must not contain base path beyond '/'")
    ∷ (
      not (is_word u.hostname "localhost")
          && not (is_word u.hostname "127.0.0.1")
          && not (is_word u.hostname "::1")
          && not (is_word u.hostname "[::1]"),
      "host is not a loopback address",
    )
    ∷ [])

unfoldable pub validate_loopback_url : (List ℕ → Option Url) → String → Option Error
validate_loopback_url parse_url raw =
    if is_nil (trim (codes raw))
    then some (other "URL is empty")
    else elim (parse_url (trim (codes raw))) [
      | none ↦ some (other "invalid URL syntax")
      | some u ↦ check_url u
    ]
