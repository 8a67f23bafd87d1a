-- ===== src/Manager/Events/Reach.antt =====
-- Whatever happens to the session, in whatever order, the manager is at rest whenever its main loop
-- waits.
use mate_session_manager.Base.{
  ℕ, ◌≡◌, inl, inr, Bool, true, List, [], ◌∷◌, arith, ltb, if◌then◌else◌, Option-cases, Bool-cases,
  nat_eq,
}
use mate_session_manager.Store
use mate_session_manager.Store.{Store}
use mate_session_manager.Client.{set_status, unregistered}
use mate_session_manager.Manager.Phases.{start}
use mate_session_manager.Manager.Phases.Rest.{IsAtRest}
use mate_session_manager.Manager.Phases.Settle.{start_phase-IsAtRest}
use mate_session_manager.Manager.Dialogs.Rest.{inhibit_dialog_response-IsAtRest}
use mate_session_manager.Manager.EndSession.Rest.{
  handle_client_end_session_response-IsAtRest, on_query_end_session_timeout-IsAtRest,
}
use mate_session_manager.Manager.Clients.{unregister_client}
use mate_session_manager.Manager.Clients.Rest.{
  app_signal-IsAtRest, on_phase_timeout-IsAtRest, on_client_disconnected-IsAtRest,
  bus_filter-IsAtRest, bus_name_owner_changed-IsAtRest, update_client-IsAtRest,
}
use mate_session_manager.Manager.Clients.Registration.{
  register_client-IsAtRest, on_xsmp_client_register_request-IsAtRest,
  app_condition_changed-IsAtRest,
}
use mate_session_manager.Manager.Inhibit.Rest.{inhibit-IsAtRest, uninhibit-IsAtRest}
use mate_session_manager.Manager.Requests.{on_xsmp_client_logout_request}
use mate_session_manager.Manager.Requests.Rest.{
  IsRunning, logout_dialog_response-IsAtRest, reboot_privileges_completed-IsAtRest,
  shutdown_privileges_completed-IsAtRest, manager_logout-IsAtRest, manager_shutdown-IsAtRest,
  manager_request_shutdown-IsAtRest, manager_request_reboot-IsAtRest,
}
use mate_session_manager.Manager.Types.{
  Manager, World, App, phase_num, Privilege, to_restart, to_stop, initialization,
}
use mate_session_manager.Manager.Events.{
  Event, phase_timer, query_timer, app_reports, condition_changes, client_answers, client_leaves,
  name_changes, registers, unregisters, xsmp_registers, inhibits, uninhibits, inhibit_answered,
  logout_answered, privileges_completed, asks_logout, asks_shutdown_dialog, asks_shutdown,
  asks_reboot, bus_disconnects, xsmp_asks_logout, idle_changes, awaits, privilege_granted, handle,
  run, initial, session,
}

dialogs-IsRunning : (m : Manager) → m.logout_dialog ≡ true → IsAtRest m → IsRunning m
dialogs-IsRunning m e r = ground arith

privileges-IsRunning :
    (p : Privilege) (m : Manager) → awaits p m.privileges ≡ true → IsAtRest m → IsRunning m
privileges-IsRunning p m e r = elim (Bool-cases (ltb (phase_num m.phase) 6)) [
  | inr h ↦ h
  | inl h ↦ ground arith
]

privilege_granted-IsAtRest :
    (w : World) (p : Privilege) (success ask_later : Bool) (m : Manager)
    → IsAtRest m
    → IsAtRest (privilege_granted w p success ask_later m)
unfolding privilege_granted
privilege_granted-IsAtRest w to_restart success ask_later m r =
    elim (Bool-cases (awaits to_restart m.privileges)) [
      | inr e ↦ rw e r
      | inl e ↦ rw e (
          reboot_privileges_completed-IsAtRest w success ask_later m
            (privileges-IsRunning to_restart m e r) r)
    ]
privilege_granted-IsAtRest w to_stop success ask_later m r =
    elim (Bool-cases (awaits to_stop m.privileges)) [
      | inr e ↦ rw e r
      | inl e ↦ rw e (
          shutdown_privileges_completed-IsAtRest w success ask_later m
            (privileges-IsRunning to_stop m e r) r)
    ]

unregister_client-IsAtRest :
    (id : ℕ) (m : Manager) → IsAtRest m → IsAtRest (unregister_client id m).0
unfolding unregister_client
unregister_client-IsAtRest id m r =
    ground (arith, update_client-IsAtRest id (set_status unregistered) m r)

on_xsmp_client_logout_request-IsAtRest :
    (w : World) (b : Bool) (m : Manager)
    → IsAtRest m
    → IsAtRest (on_xsmp_client_logout_request w b m)
unfolding on_xsmp_client_logout_request
on_xsmp_client_logout_request-IsAtRest w b m r = manager_logout-IsAtRest w (if b then 0 else 1) m r

-- Every event, whatever the world answers, leads from rest to rest.
pub handle-IsAtRest : (w : World) (e : Event) (m : Manager) → IsAtRest m → IsAtRest (handle w e m)
unfolding handle
handle-IsAtRest w phase_timer m r =
    ground (arith, λ (t : m.phase_timeout ≡ true). on_phase_timeout-IsAtRest w m t r)
handle-IsAtRest w query_timer m r =
    ground (arith, λ (t : m.query_timeout ≡ true). on_query_end_session_timeout-IsAtRest w m t r)
handle-IsAtRest w (app_reports id) m r = app_signal-IsAtRest w id m r
handle-IsAtRest w (condition_changes id condition) m r =
    app_condition_changed-IsAtRest id condition m r
handle-IsAtRest w (client_answers id a) m r = elim (Option-cases (Store.lookup id m.clients)) [
  | inl e ↦ rw (e, handle) r
  | inr (c, e) ↦ rw (e, handle) (handle_client_end_session_response-IsAtRest w c a m r)
]
handle-IsAtRest w (client_leaves id) m r = elim (Option-cases (Store.lookup id m.clients)) [
  | inl e ↦ rw (e, handle) r
  | inr (c, e) ↦ rw (e, handle) (on_client_disconnected-IsAtRest w c m r)
]
handle-IsAtRest w (name_changes old_name new_name) m r =
    bus_name_owner_changed-IsAtRest w old_name new_name m r
handle-IsAtRest w bus_disconnects m r = bus_filter-IsAtRest w m r
handle-IsAtRest w (registers app_id startup_id fresh sender) m r =
    register_client-IsAtRest w app_id startup_id fresh sender m r
handle-IsAtRest w (unregisters id) m r = unregister_client-IsAtRest id m r
handle-IsAtRest w (xsmp_registers id asked fresh) m r =
    on_xsmp_client_register_request-IsAtRest w id asked fresh m r
handle-IsAtRest w (inhibits app_id xid reason flags sender) m r =
    inhibit-IsAtRest w app_id xid reason flags sender m r
handle-IsAtRest w (uninhibits cookie) m r = uninhibit-IsAtRest w cookie m r
handle-IsAtRest w (inhibit_answered i) m r = inhibit_dialog_response-IsAtRest w i m r
handle-IsAtRest w (logout_answered a) m r = ground (
  arith,
  λ (e : m.logout_dialog ≡ true). logout_dialog_response-IsAtRest w a m (dialogs-IsRunning m e r) r,
)
handle-IsAtRest w (privileges_completed p success ask_later) m r =
    privilege_granted-IsAtRest w p success ask_later m r
handle-IsAtRest w (asks_logout mode) m r = manager_logout-IsAtRest w mode m r
handle-IsAtRest w asks_shutdown_dialog m r = manager_shutdown-IsAtRest w m r
handle-IsAtRest w asks_shutdown m r = manager_request_shutdown-IsAtRest w m r
handle-IsAtRest w asks_reboot m r = manager_request_reboot-IsAtRest w m r
handle-IsAtRest w (xsmp_asks_logout b) m r = on_xsmp_client_logout_request-IsAtRest w b m r
handle-IsAtRest w (idle_changes b) m r = ground arith

run-IsAtRest : (l : List (World × Event)) (m : Manager) → IsAtRest m → IsAtRest (run l m)
unfolding run
run-IsAtRest [] m r = r
run-IsAtRest ((w, e) ∷ l) m r = run-IsAtRest l (handle w e m) (handle-IsAtRest w e m r)

start-IsAtRest :
    (w : World) (apps : Store ℕ App) (b : Bool) (n : ℕ) → IsAtRest (start w (initial apps b n))
unfolding start initial
start-IsAtRest w apps b n =
    start_phase-IsAtRest w (record (initial apps b n) { phase = initialization }) (ground arith)

-- A session that has begun is at rest after any list of events, whatever the world answers: no
-- assertion of `gsm_manager_quit` has failed; a session that ends has a type of logout; a phase up
-- to DESKTOP waits for an application with the timer set; the phase END_SESSION has the timer
-- set; and no timer or list of applications is left over in another phase, nor a dialog about the
-- end of a session that does not end.
pub session-IsAtRest :
    (w : World) (apps : Store ℕ App) (b : Bool) (n : ℕ) (l : List (World × Event))
    → IsAtRest (session w apps b n l)
unfolding session
session-IsAtRest w apps b n l = run-IsAtRest l _ (start-IsAtRest w apps b n)
