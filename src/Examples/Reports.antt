-- ===== src/Examples/Reports.antt =====
-- A text with an object, redacted by internal/recovery/status.go.
use agents_coworkers.Prelude.{◌≡◌, refl, true, ◌++◌, [], ◌∷◌}
use agents_coworkers.Prelude.Text.{codes}
use agents_coworkers.Recovery.Status.{marker, redact, scan_end, redact_json_payloads}
use agents_coworkers.Recovery.Status.Payloads.{
  Body, finished, other_byte, quoted, object, print_body, redact_json_payloads_lem,
}

-- `"a\"}":{"b":1}`
abbrev inside : Body
inside =
    quoted (codes "a\\\"}") (
      other_byte 58 (object (quoted (codes "b") (other_byte 58 (other_byte 49 finished))) finished))

redacted :
    redact_json_payloads (λ s. true) (codes "got {\"a\\\"}\":{\"b\":1}} and {")
    ≡ codes "got [REDACTED_PAYLOAD] and {"
unfolding redact_json_payloads redact scan_end
redacted = refl

redact_json_payloads_lem_example :
    redact_json_payloads
      (λ s. true)
      (codes "got " ++ (123 ∷ ((print_body inside ++ (125 ∷ [])) ++ codes " and {")))
    ≡ codes "got " ++ (marker ++ redact_json_payloads (λ s. true) (codes " and {"))
redact_json_payloads_lem_example =
    redact_json_payloads_lem (λ s. true) (codes "got ") inside (codes " and {") refl refl refl
