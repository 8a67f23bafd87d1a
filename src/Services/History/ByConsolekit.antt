-- ===== src/Services/History/ByConsolekit.antt =====
-- Each request to ConsoleKit keeps its connection sound (mate-session/gsm-consolekit.c).
use mate_session_manager.Base.{
  ℕ, Bool, true, false, Option, none, some, [], ◌∷◌, String, strcmp_eq, Bool-cases, inl, inr,
}
use mate_session_manager.Services.{
  Connection, Bus, flag, restarting, stopping, ensure, emit_complete, ignore, is_true, may,
}
use mate_session_manager.Services.Consolekit
use mate_session_manager.Services.History.{
  Request, owner_changes, message_arrives, restarts, stops, suspends, hibernates, says_idle,
  asks_switch_user, asks_restart, asks_stop, asks_suspend, asks_hibernate, asks_type,
  wants_restart_privileges, wants_stop_privileges, by_consolekit, IsSound,
}
use mate_session_manager.Services.History.Blocks.{
  Ready, ensure-Ready, owner_changed-IsSound, completed-IsSound, requested-IsSound, asked-IsSound,
  Linked, note_sent-Linked, hint_idle-IsSound, free_dbus-IsSound, privileges-IsSound,
  ignore-IsSound,
}

get_current_session_id-Linked :
    (b : Bus) (c : Connection) → Linked c → Linked (Consolekit.get_current_session_id b c).0
unfolding Consolekit.get_current_session_id
get_current_session_id-Linked b c h =
    note_sent-Linked (b.message Consolekit.ck_manager_path "GetCurrentSession" [])
      Consolekit.ck_manager_path "GetCurrentSession" [] c h

idle-IsSound :
    (b : Bus) (is_idle : Bool) (r : Connection × Option ℕ)
    → Ready r
    → IsSound (Consolekit.idle_with b is_idle r)
unfolding Consolekit.get_current_session_id
idle-IsSound b is_idle (c, none) (s, there, live) =
    hint_idle-IsSound b is_idle (Consolekit.get_current_session_id b c)
      (get_current_session_id-Linked b c (s, there))
idle-IsSound b is_idle (c, some e) s = s

seat_of-Linked :
    (b : Bus) (r : Connection × Option String) → Linked r.0 → Linked (Consolekit.seat_of b r).0
unfolding Consolekit.get_seat_id_for_session
seat_of-Linked b (c, none) h = h
seat_of-Linked b (c, some session) h =
    note_sent-Linked (b.message session "GetSeatId" []) session "GetSeatId" [] c h

switch_at-IsSound :
    (b : Bus) (r : Connection × Option String) → Linked r.0 → IsSound (Consolekit.switch_at b r).0
unfolding Consolekit.seat_can_activate_sessions
switch_at-IsSound b (c, none) h = h.0
switch_at-IsSound b (c, some seat) h = elim (Bool-cases (strcmp_eq seat "")) [
  | inl e ↦ rw e (h.0)
  | inr e ↦
      rw e
        (note_sent-Linked (b.message_bool seat "CanActivateSessions") seat "CanActivateSessions" []
          c h).0
]

switch-IsSound :
    (b : Bus) (r : Connection × Option ℕ) → Ready r → IsSound (Consolekit.switch_with b r).0
unfolding Consolekit.get_current_seat_id Consolekit.seat_can_activate_sessions
switch-IsSound b (c, none) (s, there, live) =
    switch_at-IsSound b (Consolekit.get_current_seat_id b c) (
      seat_of-Linked b (Consolekit.get_current_session_id b c)
        (get_current_session_id-Linked b c (s, there)))
switch-IsSound b (c, some e) s = s

type_of-IsSound :
    (b : Bus) (r : Connection × Option String) → Linked r.0 → IsSound (Consolekit.type_of b r).0
type_of-IsSound b (c, none) h = h.0
type_of-IsSound b (c, some session) h =
    (note_sent-Linked (b.message session "GetSessionType" []) session "GetSessionType" [] c h).0

type-IsSound :
    (b : Bus) (r : Connection × Option ℕ) → Ready r → IsSound (Consolekit.type_with b r).0
unfolding Consolekit.get_current_session_id
type-IsSound b (c, none) (s, there, live) =
    type_of-IsSound b (Consolekit.get_current_session_id b c)
      (get_current_session_id-Linked b c (s, there))
type-IsSound b (c, some e) s = s

pub by_consolekit-IsSound :
    (b : Bus) (r : Request) (c : Connection) → IsSound c → IsSound (by_consolekit b r c)
unfolding Consolekit.on_name_owner_changed Consolekit.dbus_filter Consolekit.attempt_restart
    Consolekit.attempt_stop Consolekit.attempt_suspend Consolekit.attempt_hibernate
    Consolekit.set_session_idle Consolekit.can_switch_user Consolekit.can_restart
    Consolekit.can_stop Consolekit.can_suspend Consolekit.can_hibernate
    Consolekit.get_current_session_type Consolekit.get_restart_privileges
    Consolekit.get_stop_privileges Consolekit.emit_restart_complete Consolekit.emit_stop_complete
by_consolekit-IsSound b (owner_changes name) c s =
    owner_changed-IsSound Consolekit.ck_name b name c s
by_consolekit-IsSound b (message_arrives true) c s = free_dbus-IsSound c s
by_consolekit-IsSound b (message_arrives false) c s = s
by_consolekit-IsSound b restarts c s =
    requested-IsSound (emit_complete restarting) (completed-IsSound restarting) "Restart" [] b
      (ensure b c) (ensure-Ready b c s)
by_consolekit-IsSound b stops c s =
    requested-IsSound (emit_complete stopping) (completed-IsSound stopping) "Stop" [] b (ensure b c)
      (ensure-Ready b c s)
by_consolekit-IsSound b suspends c s =
    requested-IsSound ignore ignore-IsSound "Suspend" (flag true ∷ []) b (ensure b c)
      (ensure-Ready b c s)
by_consolekit-IsSound b hibernates c s =
    requested-IsSound ignore ignore-IsSound "Hibernate" (flag true ∷ []) b (ensure b c)
      (ensure-Ready b c s)
by_consolekit-IsSound b (says_idle is_idle) c s =
    idle-IsSound b is_idle (ensure b c) (ensure-Ready b c s)
by_consolekit-IsSound b asks_switch_user c s = switch-IsSound b (ensure b c) (ensure-Ready b c s)
by_consolekit-IsSound b asks_restart c s =
    asked-IsSound (λ b. b.ask_bool) is_true "CanRestart" b (ensure b c) (ensure-Ready b c s)
by_consolekit-IsSound b asks_stop c s =
    asked-IsSound (λ b. b.ask_bool) is_true "CanStop" b (ensure b c) (ensure-Ready b c s)
by_consolekit-IsSound b asks_suspend c s =
    asked-IsSound (λ b. b.ask_text) may "CanSuspend" b (ensure b c) (ensure-Ready b c s)
by_consolekit-IsSound b asks_hibernate c s =
    asked-IsSound (λ b. b.ask_text) may "CanHibernate" b (ensure b c) (ensure-Ready b c s)
by_consolekit-IsSound b asks_type c s = type-IsSound b (ensure b c) (ensure-Ready b c s)
by_consolekit-IsSound b wants_restart_privileges c s = privileges-IsSound c s
by_consolekit-IsSound b wants_stop_privileges c s = privileges-IsSound c s
