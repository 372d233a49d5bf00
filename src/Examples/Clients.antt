-- ===== src/Examples/Clients.antt =====
-- Exchanges of the client of internal/recovery/ao_http.go with an AO server.
use agents_coworkers.Prelude.{
  ◌≡◌, refl, true, false, ◌==◌, none, some, [], ◌∷◌, if◌then◌else◌, arith,
}
use agents_coworkers.Prelude.Int.{pos}
use agents_coworkers.Prelude.Text.{same_codes, strip_prefix, trim_prefix, trim, lower}
use agents_coworkers.Recovery.Errors.{ok, other, is_not_accepted}
use agents_coworkers.Recovery.World.{SessionExpectation, Observation, DeliveryState}
use agents_coworkers.Recovery.Client.{get, post, Server, Turn, ConversationSnapshot, map_turn_state}
use agents_coworkers.Recovery.Client.Conversation.{
  observe, observe_session, pages, search_turn, stop,
}
use agents_coworkers.Recovery.Client.Delivery.{send, recover_only, steer_or_send, judge_delivery}
use agents_coworkers.Recovery.Client.Session.{preflight}
use agents_coworkers.Recovery.Client.Observing.{Reads, observe-Reads}
use agents_coworkers.Recovery.Client.Stopping.{Stops, stop-Stops}
use agents_coworkers.Recovery.Client.Sending.{
  FailsForeign, Classified, send-Classified, recover_only_keeps,
}
use agents_coworkers.Recovery.Client.Readiness.{Prepared, preflight-Prepared}

abbrev running : Turn
running = record { id = "u1"; provider_turn_id = ""; state = " Running" }

abbrev page : ConversationSnapshot
page = record {
  controller = "ready";
  oldest_sequence = pos 1;
  has_more_before = false;
  model = "m";
  reasoning_effort = "high";
  turns = running ∷ [];
  messages = [];
}

-- It answers each request for a session, and refuses a message that is not "go".
abbrev pub server : Server
server = record {
  answer = λ t q. elim q [
    | get p ↦ ok (200, p)
    | post p b ↦ if b == "go" then ok (200, b) else ok (404, b)
  ];
  path_escape = λ id. id;
  decimal = λ n. "1";
  encode_payload = λ p. some p.text;
  decode_response = λ b.
      some (record { outcome = "sent"; turn_id = "u1"; provider_turn_id = ""; state = "running" });
  decode_session = λ b. some (record {
    id = "s1";
    project_id = "p";
    kind = "worker";
    harness = "codex";
    model = "m";
    branch = "main";
    is_terminated = false;
  });
  decode_snapshot = λ b. some page;
  decode_receipt = λ l. none;
}

abbrev expected : SessionExpectation
expected = record {
  session_id = "s1";
  project_id = "p";
  kind = "worker";
  harness = "codex";
  model = "m";
  effort = "high";
  branch = "main";
  exclusive = true;
}

abbrev seen : Observation
seen = record {
  session_exists = true;
  human_stopped = false;
  delivery = DeliveryState.accepted;
  receipt = none;
}

server_shows : (observe server "s1" "u1" []).0 ≡ ok seen
unfolding observe observe_session pages search_turn map_turn_state same_codes strip_prefix
    trim_prefix trim lower
server_shows = refl

observe-Reads_example : Reads 1001 [] (observe server "s1" "u1" [])
observe-Reads_example = observe-Reads server "s1" "u1" []

stop-Stops_example : Stops server "s1" "u1" [] (stop server "s1" "u1" [])
stop-Stops_example = stop-Stops server "s1" "u1" []

server-FailsForeign : FailsForeign server
server-FailsForeign t (get p) x e = absurd (cc)
server-FailsForeign t (post p b) x e = ground arith

send-Classified_example :
    Classified server "s1"
      (record { text = "stay"; client_message_id = "d1"; recover_only = false })
      false
      []
      (send server "s1" "d1" "stay" [])
send-Classified_example = send-Classified server "s1" "d1" "stay" [] server-FailsForeign

recover_only_keeps_example : is_not_accepted (other "AO delivery outcome uncertain") ≡ false
unfolding recover_only steer_or_send judge_delivery
recover_only_keeps_example =
    recover_only_keeps server "s1" "d1" [] "" (other "AO delivery outcome uncertain")
      server-FailsForeign refl refl

preflight-Prepared_example : Prepared server expected [] (preflight server expected [])
preflight-Prepared_example = preflight-Prepared server expected []
