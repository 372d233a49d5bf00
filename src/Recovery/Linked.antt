-- ===== src/Recovery/Linked.antt =====
-- cmd/recovery/main.go, `runRecovery`: the dispatcher with the HTTP client of internal/recovery as its
-- AO. The requests of a history are those that the client makes for its calls, so the client's
-- answers are a function of the history, as an environment has them.
pub mod Deliveries
use agents_coworkers.Prelude.{ℕ, suc, String, Bool, List, [], ◌∷◌, if◌then◌else◌}
use agents_coworkers.Recovery.Checkpoint.{Checkpoint}
use agents_coworkers.Recovery.World.{
  Action, observed, preflighted, sent, recovered, stop_sent, History, Environment, World,
}
use agents_coworkers.Recovery.Dispatcher.{step}
use agents_coworkers.Recovery.Cancellation.{cancel}
use agents_coworkers.Recovery.Protocol.{disk_of}
use agents_coworkers.Recovery.Client.{Request, get, post, Trace, Server}
use agents_coworkers.Recovery.Client.Conversation.{observe, stop}
use agents_coworkers.Recovery.Client.Delivery.{send, recover_only}
use agents_coworkers.Recovery.Client.Session.{preflight}

-- The requests after a call.
unfoldable pub exchange : Server → Action → Trace → Trace
exchange s (observed id turn) t = (observe s id turn t).1
exchange s (preflighted x) t = (preflight s x t).1
exchange s (sent id delivery m) t = (send s id delivery m t).1
exchange s (recovered id delivery) t = (recover_only s id delivery t).1
exchange s (stop_sent id turn) t = (stop s id turn t).1
exchange s _ t = t

-- The requests of a history, newest first.
unfoldable pub requests : Server → History → Trace
requests s [] = []
requests s (a ∷ h) = exchange s a (requests s h)

-- `AO: aoClient`
unfoldable pub linked : Server → Environment → Environment
linked s e = record e {
  observe_turn = λ h id turn. (observe s id turn (requests s h)).0;
  preflight_error = λ h x. (preflight s x (requests s h)).0;
  send_message = λ h id delivery m. (send s id delivery m (requests s h)).0;
  recover_message = λ h id delivery. (recover_only s id delivery (requests s h)).0;
  stop_error = λ h id turn. (stop s id turn (requests s h)).0;
}

-- The lives of a task whose processes all use the client of one server.
pub data LinkedLife (s : Server) (d : Checkpoint) : World → Type 0 where
  begins : LinkedLife s d (record { disk = d; trace = [] })
  steps :
      {w : World}
      → LinkedLife s d w
      → (e : Environment) → LinkedLife s d (step (linked s e) w).world
  cancels :
      {w : World}
      → LinkedLife s d w
      → (e : Environment) (now : ℕ) → LinkedLife s d (cancel (linked s e) now w).world

-- The requests whose body AO reads as a message to deliver.
abbrev pub messages : (String → Bool) → Trace → ℕ
messages is_message [] = 0
messages is_message (get path ∷ t) = messages is_message t
messages is_message (post path body ∷ t) =
    let n = messages is_message t in if is_message body then suc n else n
