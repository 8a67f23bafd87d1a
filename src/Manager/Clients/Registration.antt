-- ===== src/Manager/Clients/Registration.antt =====
-- Who may register as a client, and what registration leads to.
use mate_session_manager.Base.{
  ℕ, ◌≡◌, Bool, true, false, Option, none, some, String, arith, inl, inr, ◌||◌, ◌&&◌, not, nat_eq,
  Option-cases, is_some, is_string_empty, if◌then◌else◌,
}
use mate_session_manager.Store
use mate_session_manager.Client.{
  registered, set_status, set_app_id, new_dbus, next_client_serial, has_startup_id,
}
use mate_session_manager.Manager.Phases.{app_signal}
use mate_session_manager.Manager.Phases.Rest.{IsAtRest}
use mate_session_manager.Manager.Types.{
  Manager, World, App, is_ending, not_in_running, already_registered,
}
use mate_session_manager.Manager.Clients.Rest.{
  update_client-IsAtRest, hear_clients-IsAtRest, app_signal-IsAtRest,
}
use mate_session_manager.Manager.Clients.{
  update_client, find_app, find_app_for_startup_id, hear_clients, admit_client, register_client,
  on_xsmp_client_register_request, app_condition_changed, ok, err,
}

admitted_app-IsAtRest :
    (w : World) (app_id : Option String) (app : Option App) (id : ℕ) (m : Manager)
    → IsAtRest m
    → IsAtRest (elim app [
      | none ↦ update_client id (set_app_id app_id) m
      | some a ↦ app_signal w a.id (update_client id (set_app_id a.app_id) m)
    ])
admitted_app-IsAtRest w app_id none id m r = update_client-IsAtRest id (set_app_id app_id) m r
admitted_app-IsAtRest w app_id (some a) id m r =
    app_signal-IsAtRest w a.id _ (update_client-IsAtRest id (set_app_id a.app_id) m r)

admit_client-IsAtRest :
    (w : World) (app_id : Option String) (app : Option App) (startup sender : String) (m : Manager)
    → IsAtRest m
    → IsAtRest (admit_client w app_id app startup sender m)
unfolding admit_client
admit_client-IsAtRest w app_id app startup sender m r =
    let id : ℕ = m.client_serial in
    let (store, done, signals) = Store.add id (new_dbus id startup (some sender)) m.clients in
    let n : Manager = record m { clients = store; client_serial = next_client_serial id } in
    update_client-IsAtRest id (set_status registered) _ (
      admitted_app-IsAtRest w app_id app id (hear_clients signals n)
        (hear_clients-IsAtRest signals n (ground arith)))

pub register_client-IsAtRest :
    (w : World) (app_id startup_id : Option String) (fresh sender : String) (m : Manager)
    → IsAtRest m
    → IsAtRest (register_client w app_id startup_id fresh sender m).0
unfolding register_client
register_client-IsAtRest w app_id none fresh sender m r =
    ground (arith, admit_client-IsAtRest w app_id (find_app none app_id m) fresh sender m r)
register_client-IsAtRest w app_id (some s) fresh sender m r = ground (
  arith,
  admit_client-IsAtRest w app_id (find_app none app_id m) fresh sender m r,
  admit_client-IsAtRest w app_id (find_app (some s) app_id m) s sender m r,
)

pub on_xsmp_client_register_request-IsAtRest :
    (w : World) (id : ℕ) (asked : Option String) (fresh : String) (m : Manager)
    → IsAtRest m
    → IsAtRest (on_xsmp_client_register_request w id asked fresh m).0
unfolding on_xsmp_client_register_request
on_xsmp_client_register_request-IsAtRest w id none fresh m r = ground arith
on_xsmp_client_register_request-IsAtRest w id (some s) fresh m r =
    elim (Option-cases (find_app_for_startup_id s m)) [
      | inl e ↦ ground arith
      | inr (a, e) ↦ ground (
        arith,
        app_signal-IsAtRest w a.id (update_client id (set_app_id a.app_id) m)
            (update_client-IsAtRest id (set_app_id a.app_id) m r),
      )
    ]

pub app_condition_changed-IsAtRest :
    (id : ℕ) (condition : Bool) (m : Manager)
    → IsAtRest m
    → IsAtRest (app_condition_changed id condition m)
unfolding app_condition_changed
app_condition_changed-IsAtRest id condition m r = ground arith

-- Whether some client has the startup id that is given.
abbrev pub is_taken : Option String → Manager → Bool
is_taken none m = false
is_taken (some s) m =
    not (is_string_empty (some s)) && is_some (Store.find (has_startup_id s) m.clients)

-- A D-Bus client is refused, with the manager unchanged, exactly when the session is ending or a
-- client has the startup id that it gives; else the reply is the path of the new client, made
-- from the next serial number.
pub register_client_reply :
    (w : World) (app_id startup_id : Option String) (fresh sender : String) (m : Manager)
    → let (n, reply) = register_client w app_id startup_id fresh sender m in
      (reply ≡ (
        if is_ending m.phase
        then err not_in_running
        else if is_taken startup_id m
        then err already_registered
        else ok m.client_serial))
      × ((is_ending m.phase || is_taken startup_id m) ≡ true → n ≡ m)
unfolding register_client
register_client_reply w app_id none fresh sender m = ground arith
register_client_reply w app_id (some s) fresh sender m = ground arith
