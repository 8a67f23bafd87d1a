-- ===== src/Manager/Clients.antt =====
-- Clients that come and go (mate-session/gsm-manager.c): registration over D-Bus and XSMP, the match
-- with the applications that the manager started, disconnection, and the restart of what must
-- not be missing.
pub mod Rest
pub mod Registration
use mate_session_manager.Base.{
  ℕ, Bool, true, false, not, ◌&&◌, ◌||◌, Option, none, some, List, [], ◌∷◌, String, if◌then◌else◌,
  is_nil, is_some, ◌==◌, nat_eq, contains, slist_remove, is_string_empty, strcmp_eq, ltb,
}
use mate_session_manager.Store
use mate_session_manager.Store.{Store, Signal, added, removed}
use mate_session_manager.Client.{
  Client, Status, unregistered, registered, finished, RestartStyle, immediately, never, if_running,
  anyway, is_dbus, set_status, set_app_id, new_dbus, next_client_serial, has_startup_id,
}
use mate_session_manager.Inhibitor.{has_client_id, has_bus_name}
use mate_session_manager.Manager.Phases.{end_phase, app_signal}
use mate_session_manager.Manager.Dialogs.{remove_inhibitors}
use mate_session_manager.Manager.EndSession.{Answer, handle_client_end_session_response}
use mate_session_manager.Manager.Types.{
  Manager, World, App, Phase, query_end_session, is_ending, is_waiting_phase, phase_num, Error,
  general, not_in_running, already_registered, not_registered, emit, app_restart, app_start,
  app_stop, client_stop, client_added, client_removed,
}

-- `_app_has_startup_id` and `_app_has_app_id`.
unfoldable pub app_has_startup_id : String → ℕ → App → Bool
app_has_startup_id startup key a = elim a.startup_id [
  | none ↦ false
  | some s ↦ if is_string_empty (some s) then false else strcmp_eq startup s
]

unfoldable pub app_has_app_id : String → ℕ → App → Bool
app_has_app_id app key a = elim a.app_id [ none ↦ false | some s ↦ strcmp_eq app s ]

-- The loop over the pending applications.
unfoldable pub find_pending : String → List ℕ → Store ℕ App → Option App
find_pending startup [] apps = none
find_pending startup (id ∷ r) apps =
    let rest = find_pending startup r apps in
    elim (Store.lookup id apps) [
      | none ↦ rest
      | some a ↦
          if elim a.startup_id [ none ↦ false | some s ↦ strcmp_eq startup s ] then some a else rest
    ]

abbrev object_of : Option (ℕ × App) → Option App
object_of none = none
object_of (some (_, a)) = some a

unfoldable pub find_app_for_startup_id : String → Manager → Option App
unfolding app_has_startup_id find_pending
find_app_for_startup_id startup m =
    if is_waiting_phase m.phase
    then find_pending startup m.pending_apps m.apps
    else object_of (Store.find (app_has_startup_id startup) m.apps)

unfoldable pub find_app_for_app_id : String → Manager → Option App
unfolding app_has_app_id
find_app_for_app_id app m = object_of (Store.find (app_has_app_id app) m.apps)

-- First by startup id, then by application id.
abbrev or_else : Option App → Option App → Option App
or_else (some a) _ = some a
or_else none b = b

abbrev by_startup_id : Option String → Manager → Option App
by_startup_id none m = none
by_startup_id (some s) m = if is_string_empty (some s) then none else find_app_for_startup_id s m

abbrev by_app_id : Option String → Manager → Option App
by_app_id none m = none
by_app_id (some s) m = if is_string_empty (some s) then none else find_app_for_app_id s m

unfoldable pub find_app : Option String → Option String → Manager → Option App
find_app startup_id app_id m = or_else (by_startup_id startup_id m) (by_app_id app_id m)

-- A setter on one client of the store.
unfoldable pub set_client : ℕ → (Client → Client) → List (ℕ × Client) → List (ℕ × Client)
set_client id f [] = []
set_client id f ((k, c) ∷ r) = (k, if k == id then f c else c) ∷ set_client id f r

unfoldable pub update_client : ℕ → (Client → Client) → Manager → Manager
unfolding set_client
update_client id f m = record m {
  clients = record (m.clients) { objects = set_client id f (m.clients).objects };
}

-- The answer that a client gives by going away in the query phase.
abbrev exit_answer : Answer
exit_answer = record {
  is_ok = true;
  do_last = false;
  cancels = false;
  reason = some "Client exited in query end session phase instead of end session phase";
}

abbrev is_immediate : RestartStyle → Bool
is_immediate immediately = true
is_immediate _ = false

-- Whether the application of a client that went away is started again.
unfoldable pub must_restart : Manager → Client → App → Bool → Bool
must_restart m c a is_condition_client =
    not (m.dbus_disconnected && is_dbus c)
    && not (is_ending m.phase)
    && (a.autorestart || is_immediate c.restart_style_hint)
    && not is_condition_client

-- `_disconnect_client`.
unfoldable pub disconnect_client : World → Client → Manager → Manager
unfolding update_client find_app must_restart
disconnect_client w c m =
    let held = contains c.id m.condition_clients in
    let m1 = update_client c.id (set_status finished) m in
    let m2 = record m1 { condition_clients = slist_remove c.id m.condition_clients } in
    let m3 = remove_inhibitors w (has_client_id c.id) m2 in
    let app = find_app c.startup_id c.app_id m3 in
    let m4 =
      if phase_num m3.phase == 7
      then handle_client_end_session_response w c exit_answer m3
      else m3 in
    elim app [
      | none ↦ m4
      | some a ↦ if must_restart m4 c a held then emit (app_restart a.id) m4 else m4
    ]

-- `on_store_client_added` and `on_store_client_removed`.
unfoldable pub hear_clients : List (Signal ℕ) → Manager → Manager
hear_clients [] m = m
hear_clients (added id ∷ r) m = hear_clients r (emit (client_added id) m)
hear_clients (removed id ∷ r) m = hear_clients r (emit (client_removed id) m)

-- When the last client is gone, the phase of the end is over.
unfoldable pub end_if_alone : World → Manager → Manager
end_if_alone w m = if is_ending m.phase && Store.size m.clients == 0 then end_phase w m else m

unfoldable pub on_client_disconnected : World → Client → Manager → Manager
unfolding disconnect_client hear_clients end_if_alone
on_client_disconnected w c m =
    let n = disconnect_client w c m in
    let (store, done, signals) = Store.remove c.id n.clients in
    end_if_alone w (hear_clients signals (record n { clients = store }))

-- `_disconnect_dbus_client`: whether the client goes; without a service name all D-Bus clients go.
unfoldable pub owned_by : Option String → Client → Bool
owned_by service c = if not (is_dbus c) then false else elim service [
  | none ↦ true
  | some s ↦ elim c.bus_name [
    | none ↦ false
    | some name ↦ if is_string_empty (some name) then false else strcmp_eq s name
  ]
]

-- The walk over the table, in which each client that goes is disconnected and then taken out; with
-- the identifiers taken out, the last one first.
unfoldable pub disconnect_each :
    World → Option String → List (ℕ × Client) → List ℕ → Manager → Manager × List ℕ
unfolding disconnect_client owned_by
disconnect_each w service [] gone m = (m, gone)
disconnect_each w service ((k, c) ∷ r) gone m =
    let stays = disconnect_each w service r gone m in
    let n = disconnect_client w c m in
    let goes =
      disconnect_each w service r (k ∷ gone)
        (record n { clients = (Store.remove k n.clients).0 }) in
    if owned_by service c then goes else stays

unfoldable pub remove_clients_for_connection : World → Option String → Manager → Manager
unfolding disconnect_each hear_clients end_if_alone
remove_clients_for_connection w service m =
    let (n, gone) = disconnect_each w service (m.clients).objects [] m in
    end_if_alone w (hear_clients (Store.emit_removed gone) n)

-- `bus_name_owner_changed`: a name that had an owner has none now.
unfoldable pub bus_name_owner_changed : World → String → String → Manager → Manager
unfolding remove_clients_for_connection
bus_name_owner_changed w old_name new_name m =
    if strcmp_eq new_name "" && not (strcmp_eq old_name "")
    then remove_clients_for_connection w (some old_name)
        (remove_inhibitors w (has_bus_name (some old_name)) m)
    else m

-- `gsm_manager_bus_filter`, of the signal "Disconnected" of the connection itself.
unfoldable pub bus_filter : World → Manager → Manager
unfolding remove_clients_for_connection
bus_filter w m = remove_clients_for_connection w none (record m { dbus_disconnected = true })

pub data Result {ℓ} (A : Type ℓ) : Type ℓ where
  ok : A → Result A
  err : Error → Result A

-- The new client of `gsm_manager_register_client`, once it may be made: it goes into the store, and
-- the application that it belongs to, if any, has registered.
unfoldable pub admit_client :
    World → Option String → Option App → String → String → Manager → Manager
unfolding hear_clients update_client
admit_client w app_id app startup_id sender m =
    let id = m.client_serial in
    let (store, done, signals) = Store.add id (new_dbus id startup_id (some sender)) m.clients in
    let n =
      hear_clients signals (record m { clients = store; client_serial = next_client_serial id }) in
    update_client id (set_status registered) (elim app [
      | none ↦ update_client id (set_app_id app_id) n
      | some a ↦ app_signal w a.id (update_client id (set_app_id a.app_id) n)
    ])

-- `gsm_manager_register_client`: `fresh` is the identifier that `gsm_util_generate_startup_id` makes
-- up, `sender` the caller's bus name. The reply is the new client's path, or an error.
unfoldable pub register_client :
    World → Option String → Option String → String → String → Manager → Manager × Result ℕ
unfolding admit_client find_app
register_client w app_id startup_id fresh sender m =
    if is_ending m.phase then (m, err not_in_running) else elim startup_id [
      | none ↦ (admit_client w app_id (find_app none app_id m) fresh sender m, ok m.client_serial)
      | some s ↦
          if is_string_empty (some s)
          then (admit_client w app_id (find_app none app_id m) fresh sender m, ok m.client_serial)
          else if is_some (Store.find (has_startup_id s) m.clients)
          then (m, err already_registered)
          else (admit_client w app_id (find_app (some s) app_id m) s sender m, ok m.client_serial)
    ]

-- `gsm_manager_unregister_client`: only the status changes until the client leaves the bus.
unfoldable pub unregister_client : ℕ → Manager → Manager × Result (Unit {0})
unfolding update_client
unregister_client id m =
    if is_some (Store.lookup id m.clients)
    then (update_client id (set_status unregistered) m, ok tt)
    else (m, err not_registered)

-- `on_xsmp_client_register_request` for the client `id`, which asks for the startup id `asked`: the
-- identifier that it gets, or none for a refusal.
unfoldable pub on_xsmp_client_register_request :
    World → ℕ → Option String → String → Manager → Manager × Option String
unfolding update_client
on_xsmp_client_register_request w id asked fresh m =
    if is_ending m.phase then (m, none) else elim asked [
      | none ↦ (m, some fresh)
      | some s ↦
          if is_string_empty (some s)
          then (m, some fresh)
          else if is_some (Store.find (has_startup_id s) m.clients)
          then (m, none)
          else elim (find_app_for_startup_id s m) [
            | none ↦ (m, none)
            | some a ↦ (app_signal w a.id (update_client id (set_app_id a.app_id) m), some s)
          ]
    ]

-- `app_condition_changed`: an application is started or stopped as its condition changes, by way of
-- its client if it has one, which must then not be restarted.
unfoldable pub app_condition_changed : ℕ → Bool → Manager → Manager
app_condition_changed id condition m = elim (Store.lookup id m.apps) [
  | none ↦ m
  | some a ↦
      let client : Option (ℕ × Client) = elim a.startup_id [
        | none ↦ none
        | some s ↦ Store.find (has_startup_id s) m.clients
      ] in
      if condition
      then (if not a.is_running && not (is_some client) then emit (app_start id) m else m)
      else elim client [
        | some (_, c) ↦
            emit (client_stop c.id) (record m { condition_clients = c.id ∷ m.condition_clients })
        | none ↦ if a.is_running then emit (app_stop id) m else m
      ]
]
