-- ===== src/Examples/Callers.antt =====
-- D-Bus clients of mate-session/gsm-dbus-client.c on a small bus.
use mate_session_manager.Base.{
  ◌≡◌, refl, true, false, none, some, [], ◌∷◌, not, ◌&&◌, is_some, if◌then◌else◌,
}
use mate_session_manager.Client.Dbus.{
  DbusClient, SessionBus, Message, done, dispatch, is_other, query_end_session, end_session,
  cancel_end_session, stop, signal, reads_null,
}
use mate_session_manager.Client.Dbus.Answers.{dispatch_takes, has_client}
use mate_session_manager.Client.Dbus.Errors.{calls-Reports, Reports, works}

abbrev bus : SessionBus
bus = record {
  reachable = true;
  unix_user = λ _. some 1000;
  process_id = λ _. some 42;
  allocates = true;
  addresses = true;
  sends = true;
}

abbrev first : DbusClient
first = record { id = 1; bus_name = some ":1.5"; caller_pid = 42; connection = true }

abbrev second : DbusClient
second = record { id = 2; bus_name = some ":1.6"; caller_pid = 43; connection = true }

abbrev answer : Message
answer = record { is_response = true; path = some 2; sender = some ":1.6"; args = some (true, "") }

dispatch_takes_example :
    (answer.is_response ≡ true)
    × (is_other 2 answer.path ≡ false)
    × (answer.args ≡ some (true, ""))
    × (done ≡ done)
    × (has_client 2 answer.sender (first ∷ second ∷ []) ≡ true)
unfolding dispatch
dispatch_takes_example = dispatch_takes bus (first ∷ second ∷ []) answer 2 true "" done refl

-- The bus has no memory left.
abbrev full : SessionBus
full = record bus { sends = false }

calls-Reports_example :
    Reports
      (is_some first.bus_name && works full)
      (signal first "QueryEndSession" (some 0))
      (query_end_session full 0 first)
    × Reports (works full) (signal first "EndSession" (some 0)) (end_session full 0 first)
    × Reports (works full) (signal first "CancelEndSession" none) (cancel_end_session full first)
    × ((stop full first).result ≡ works full)
    × ((stop full first).sent ≡ (if works full then some (signal first "Stop" none) else none))
    × (reads_null (stop full first) ≡ not (works full))
calls-Reports_example = calls-Reports full 0 first
