-- ===== src/Examples/Linking.antt =====
-- A task whose dispatcher uses the client of internal/recovery/ao_http.go.
use agents_coworkers.Prelude.{
  ◌≡◌, ◌≤◌, refl, sym, ap, true, false, not, Bool, String, ◌==◌, none, some, [], if◌then◌else◌,
}
use agents_coworkers.Recovery.Checkpoint.{Checkpoint, validate}
use agents_coworkers.Recovery.World.{World}
use agents_coworkers.Recovery.Dispatcher.{step}
use agents_coworkers.Recovery.Client.{Server}
use agents_coworkers.Prelude.Text.{same_codes, lower, trim}
use agents_coworkers.Recovery.Client.{map_turn_state}
use agents_coworkers.Recovery.Client.Conversation.{observe, observe_session, pages, search_turn}
use agents_coworkers.Recovery.Client.Delivery.{
  send, recover_only, steer_or_send, judge_delivery, judge_response,
}
use agents_coworkers.Recovery.Client.Session.{
  preflight, preflight_session, read_settings, check_session, check_conversation,
}
use agents_coworkers.Recovery.Linked.{exchange, linked, LinkedLife, requests, messages}
use agents_coworkers.Recovery.Linked.Deliveries.{ReadsBodies, LinkedLife-messages_bounded}
use agents_coworkers.Examples.Samples.{task, machinery, server as outside}
use agents_coworkers.Examples.Clients.{server as client}

abbrev ao : Server
ao = record client { encode_payload = λ p. some (if p.recover_only then "recover" else "go") }

abbrev is_message : String → Bool
is_message body = body == "go"

bodies : ReadsBodies ao is_message
bodies = record { payloads = λ p body e. coded p.recover_only body e; interrupts = refl }
  where
    coded :
        (r : Bool) (body : String)
        → some (if r then "recover" else "go") ≡ some body
        → is_message body ≡ not r
    coded true body e = let same_body : "recover" ≡ body = cc in ap is_message (sym same_body)
    coded false body e = let same_body : "go" ≡ body = cc in ap is_message (sym same_body)

-- The task of a session that is the client's.
abbrev owned : Checkpoint
owned = record task {
  project_id = "p";
  session_kind = "worker";
  session_harness = "codex";
  session_model = "m";
  session_effort = "high";
  session_branch = "main";
  session_exclusive = true;
}

abbrev one_step : World
one_step = (step (linked ao outside) (record { disk = owned; trace = [] })).world

one_message : messages is_message (requests ao one_step.trace) ≡ 1
unfolding machinery requests exchange linked observe observe_session pages search_turn send
    recover_only steer_or_send judge_delivery judge_response preflight preflight_session
    read_settings check_session check_conversation map_turn_state same_codes lower trim
one_message = refl

valid_task : validate owned ≡ none
unfolding validate
valid_task = refl

LinkedLife-messages_bounded_example : messages is_message (requests ao one_step.trace) ≤ 3
LinkedLife-messages_bounded_example =
    LinkedLife-messages_bounded ao is_message owned one_step bodies valid_task
      (LinkedLife.steps LinkedLife.begins outside)
