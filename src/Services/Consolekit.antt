-- ===== src/Services/Consolekit.antt =====
-- What is asked of ConsoleKit (mate-session/gsm-consolekit.c).
use mate_session_manager.Base.{
  ℕ, Bool, true, false, Option, none, some, [], ◌∷◌, String, strcmp_eq, if◌then◌else◌,
}
use mate_session_manager.Services.{
  Connection, Bus, restarting, stopping, sent, privileges_completed, emit, fresh, ensure, free_dbus,
  owner_changed, requested, emit_complete, ignore, asked, is_true, may, note_sent, hint_idle,
  value_of, flag,
}

abbrev pub ck_name : String
ck_name = "org.freedesktop.ConsoleKit"

abbrev pub ck_manager_path : String
ck_manager_path = "/org/freedesktop/ConsoleKit/Manager"

unfoldable pub ensure_ck_connection : Bus → Connection → Connection × Option ℕ
unfolding ensure
ensure_ck_connection b c = ensure b c

unfoldable pub on_name_owner_changed : Bus → Option String → Connection → Connection
unfolding ensure
on_name_owner_changed b name c = owner_changed ck_name b name c

-- The filter, and whether other filters are kept from the message.
unfoldable pub dbus_filter : Bool → Connection → Connection × Bool
dbus_filter true c = (free_dbus c, false)
dbus_filter false c = (c, false)

-- `gsm_consolekit_init`.
unfoldable pub init : Bus → Connection
unfolding ensure_ck_connection
init b = (ensure_ck_connection b fresh).0

unfoldable pub finalize : Connection → Connection
finalize c = free_dbus c

unfoldable pub emit_restart_complete : Option ℕ → Connection → Connection
emit_restart_complete e c = emit_complete restarting e c

unfoldable pub emit_stop_complete : Option ℕ → Connection → Connection
emit_stop_complete e c = emit_complete stopping e c

unfoldable pub attempt_restart : Bus → Connection → Connection
unfolding ensure_ck_connection emit_restart_complete
attempt_restart b c = requested emit_restart_complete "Restart" [] b (ensure_ck_connection b c)

unfoldable pub attempt_stop : Bus → Connection → Connection
unfolding ensure_ck_connection emit_stop_complete
attempt_stop b c = requested emit_stop_complete "Stop" [] b (ensure_ck_connection b c)

unfoldable pub attempt_suspend : Bus → Connection → Connection
unfolding ensure_ck_connection
attempt_suspend b c = requested ignore "Suspend" (flag true ∷ []) b (ensure_ck_connection b c)

unfoldable pub attempt_hibernate : Bus → Connection → Connection
unfolding ensure_ck_connection
attempt_hibernate b c = requested ignore "Hibernate" (flag true ∷ []) b (ensure_ck_connection b c)

-- The object path of the session, and of the seat of a session.
unfoldable pub get_current_session_id : Bus → Connection → Connection × Option String
get_current_session_id b c =
    let reply = b.message ck_manager_path "GetCurrentSession" [] in
    (
      note_sent reply (sent c.dbus_connection ck_manager_path "GetCurrentSession" []) c,
      value_of reply,
    )

unfoldable pub get_seat_id_for_session : Bus → String → Connection → Connection × Option String
get_seat_id_for_session b session_id c =
    let reply = b.message session_id "GetSeatId" [] in
    (note_sent reply (sent c.dbus_connection session_id "GetSeatId" []) c, value_of reply)

abbrev pub seat_of : Bus → Connection × Option String → Connection × Option String
unfolding get_seat_id_for_session
seat_of b (c, none) = (c, none)
seat_of b (c, some session_id) = get_seat_id_for_session b session_id c

unfoldable pub get_current_seat_id : Bus → Connection → Connection × Option String
unfolding get_current_session_id get_seat_id_for_session
get_current_seat_id b c = seat_of b (get_current_session_id b c)

abbrev pub idle_with : Bus → Bool → Connection × Option ℕ → Connection
unfolding get_current_session_id
idle_with b is_idle (c, none) = hint_idle b is_idle (get_current_session_id b c)
idle_with b is_idle (c, some e) = c

unfoldable pub set_session_idle : Bus → Bool → Connection → Connection
unfolding ensure_ck_connection get_current_session_id
set_session_idle b is_idle c = idle_with b is_idle (ensure_ck_connection b c)

abbrev can_activate : Option Bool → Bool
can_activate none = false
can_activate (some b) = b

unfoldable pub seat_can_activate_sessions : Bus → String → Connection → Connection × Bool
seat_can_activate_sessions b seat_id c =
    let reply = b.message_bool seat_id "CanActivateSessions" in
    (
      note_sent reply (sent c.dbus_connection seat_id "CanActivateSessions" []) c,
      can_activate (value_of reply),
    )

abbrev pub switch_at : Bus → Connection × Option String → Connection × Bool
unfolding seat_can_activate_sessions
switch_at b (c, none) = (c, false)
switch_at b (c, some seat_id) =
    if strcmp_eq seat_id "" then (c, false) else seat_can_activate_sessions b seat_id c

abbrev pub switch_with : Bus → Connection × Option ℕ → Connection × Bool
unfolding get_current_seat_id seat_can_activate_sessions
switch_with b (c, none) = switch_at b (get_current_seat_id b c)
switch_with b (c, some e) = (c, false)

unfoldable pub can_switch_user : Bus → Connection → Connection × Bool
unfolding ensure_ck_connection get_current_seat_id seat_can_activate_sessions
can_switch_user b c = switch_with b (ensure_ck_connection b c)

unfoldable pub get_restart_privileges : Connection → Connection × Bool
get_restart_privileges c = (emit (privileges_completed true true) c, true)

unfoldable pub get_stop_privileges : Connection → Connection × Bool
get_stop_privileges c = (emit (privileges_completed true true) c, true)

unfoldable pub can_restart : Bus → Connection → Connection × Bool
unfolding ensure_ck_connection
can_restart b c = asked (λ b. b.ask_bool) is_true "CanRestart" b (ensure_ck_connection b c)

unfoldable pub can_stop : Bus → Connection → Connection × Bool
unfolding ensure_ck_connection
can_stop b c = asked (λ b. b.ask_bool) is_true "CanStop" b (ensure_ck_connection b c)

unfoldable pub can_suspend : Bus → Connection → Connection × Bool
unfolding ensure_ck_connection
can_suspend b c = asked (λ b. b.ask_text) may "CanSuspend" b (ensure_ck_connection b c)

unfoldable pub can_hibernate : Bus → Connection → Connection × Bool
unfolding ensure_ck_connection
can_hibernate b c = asked (λ b. b.ask_text) may "CanHibernate" b (ensure_ck_connection b c)

abbrev pub type_of : Bus → Connection × Option String → Connection × Option String
type_of b (c, none) = (c, none)
type_of b (c, some session) =
    let reply = b.message session "GetSessionType" [] in
    (note_sent reply (sent c.dbus_connection session "GetSessionType" []) c, value_of reply)

abbrev pub type_with : Bus → Connection × Option ℕ → Connection × Option String
unfolding get_current_session_id
type_with b (c, none) = type_of b (get_current_session_id b c)
type_with b (c, some e) = (c, none)

unfoldable pub get_current_session_type : Bus → Connection → Connection × Option String
unfolding ensure_ck_connection get_current_session_id
get_current_session_type b c = type_with b (ensure_ck_connection b c)
