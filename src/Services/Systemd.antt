-- ===== src/Services/Systemd.antt =====
-- What is asked of systemd-logind (mate-session/gsm-systemd.c), in part through libsystemd.
use mate_session_manager.Base.{
  ℕ, ℤ, pos, negsuc, zero, suc, Bool, true, false, not, ◌&&◌, Option, none, some, List, [], ◌∷◌,
  String, strcmp_eq, if◌then◌else◌,
}
use mate_session_manager.Services.{
  Connection, Bus, restarting, stopping, sent, privileges_completed, emit, fresh, ensure, free_dbus,
  owner_changed, requested, emit_complete, ignore, asked, may, note_sent, hint_idle, value_of, flag,
  text,
}

-- libsystemd: the number that a call returns and what it stores, where `none` is NULL. A build
-- without it stores nothing.
pub record Logind : Type 0 where
  pub pid_get_session : ℤ × Option String
  pub uid_get_sessions : ℤ × Option (List String)
  pub session_get_state : String → ℤ × Option String
  pub session_get_type : String → ℤ × Option String
  pub session_get_class : String → ℤ × Option String
  pub session_get_seat : String → Option String
  pub seat_can_multi_session : Option String → ℤ

abbrev pub sd_name : String
sd_name = "org.freedesktop.login1"

abbrev pub sd_path : String
sd_path = "/org/freedesktop/login1"

abbrev pub is_zero : ℤ → Bool
is_zero (pos zero) = true
is_zero (pos (suc n)) = false
is_zero (negsuc n) = false

abbrev pub is_positive : ℤ → Bool
is_positive (pos zero) = false
is_positive (pos (suc n)) = true
is_positive (negsuc n) = false

-- `g_strcmp0 (a, b) == 0`, for a text `b`.
abbrev pub strcmp0_eq : Option String → String → Bool
strcmp0_eq none b = false
strcmp0_eq (some a) b = strcmp_eq a b

unfoldable pub ensure_sd_connection : Bus → Connection → Connection × Option ℕ
unfolding ensure
ensure_sd_connection b c = ensure b c

unfoldable pub on_name_owner_changed : Bus → Option String → Connection → Connection
unfolding ensure
on_name_owner_changed b name c = owner_changed sd_name b name c

-- The filter, and whether other filters are kept from the message.
unfoldable pub dbus_filter : Bool → Connection → Connection × Bool
dbus_filter true c = (free_dbus c, true)
dbus_filter false c = (c, false)

-- `gsm_systemd_init`.
unfoldable pub init : Bus → Connection
unfolding ensure_sd_connection
init b = (ensure_sd_connection b fresh).0

unfoldable pub finalize : Connection → Connection
finalize c = free_dbus c

unfoldable pub emit_restart_complete : Option ℕ → Connection → Connection
emit_restart_complete e c = emit_complete restarting e c

unfoldable pub emit_stop_complete : Option ℕ → Connection → Connection
emit_stop_complete e c = emit_complete stopping e c

-- The loop of `gsm_systemd_is_last_session_for_user` over the sessions.
unfoldable pub last_among : Logind → String → List String → Bool
last_among l session [] = true
last_among l session (s ∷ sessions) =
    let (state_ret, state) = l.session_get_state s in
    let (type_ret, type) = l.session_get_type s in
    let rest = last_among l session sessions in
    if strcmp_eq s session
    then rest
    else if not (is_zero state_ret)
    then rest
    else if strcmp0_eq state "closing"
    then rest
    else if not (is_zero type_ret)
    then rest
    else if not (strcmp0_eq type "x11") && not (strcmp0_eq type "wayland")
    then rest
    else false

abbrev pub last_of_list : Logind → String → ℤ × Option (List String) → Bool
unfolding last_among
last_of_list l session (ret, none) = false
last_of_list l session (ret, some sessions) =
    if not (is_positive ret) then false else last_among l session sessions

abbrev pub last_of_pid : Logind → ℤ × Option String → Bool
unfolding last_among
last_of_pid l (ret, none) = false
last_of_pid l (ret, some session) =
    if not (is_zero ret) then false else last_of_list l session l.uid_get_sessions

unfoldable pub is_last_session_for_user : Logind → Bool
unfolding last_among
is_last_session_for_user l = last_of_pid l l.pid_get_session

unfoldable pub attempt_restart : Bus → Connection → Connection
unfolding ensure_sd_connection emit_restart_complete
attempt_restart b c =
    requested emit_restart_complete "Reboot" (flag true ∷ []) b (ensure_sd_connection b c)

unfoldable pub attempt_stop : Bus → Connection → Connection
unfolding ensure_sd_connection emit_stop_complete
attempt_stop b c =
    requested emit_stop_complete "PowerOff" (flag true ∷ []) b (ensure_sd_connection b c)

abbrev pub path_of : Bus → Option String → Connection → Connection × Option String
path_of b none c = (c, none)
path_of b (some session) c =
    let reply = b.message sd_path "GetSession" (text session ∷ []) in
    (
      note_sent reply (sent c.dbus_connection sd_path "GetSession" (text session ∷ [])) c,
      value_of reply,
    )

unfoldable pub get_session_path : Bus → Logind → Connection → Connection × Option String
get_session_path b l c = path_of b l.pid_get_session.1 c

abbrev pub idle_with : Bus → Logind → Bool → Connection × Option ℕ → Connection
unfolding get_session_path
idle_with b l is_idle (c, none) = hint_idle b is_idle (get_session_path b l c)
idle_with b l is_idle (c, some e) = c

unfoldable pub set_session_idle : Bus → Logind → Bool → Connection → Connection
unfolding ensure_sd_connection get_session_path
set_session_idle b l is_idle c = idle_with b l is_idle (ensure_sd_connection b c)

abbrev pub switch_at : Logind → Option String → Bool
switch_at l none = false
switch_at l (some session) = is_positive (l.seat_can_multi_session (l.session_get_seat session))

abbrev pub switch_with : Logind → Connection × Option ℕ → Connection × Bool
switch_with l (c, none) = (c, switch_at l l.pid_get_session.1)
switch_with l (c, some e) = (c, false)

unfoldable pub can_switch_user : Bus → Logind → Connection → Connection × Bool
unfolding ensure_sd_connection
can_switch_user b l c = switch_with l (ensure_sd_connection b c)

unfoldable pub get_restart_privileges : Connection → Connection × Bool
get_restart_privileges c = (emit (privileges_completed true true) c, true)

unfoldable pub get_stop_privileges : Connection → Connection × Bool
get_stop_privileges c = (emit (privileges_completed true true) c, true)

unfoldable pub can_restart : Bus → Connection → Connection × Bool
unfolding ensure_sd_connection
can_restart b c = asked (λ b. b.ask_text) may "CanReboot" b (ensure_sd_connection b c)

unfoldable pub can_stop : Bus → Connection → Connection × Bool
unfolding ensure_sd_connection
can_stop b c = asked (λ b. b.ask_text) may "CanPowerOff" b (ensure_sd_connection b c)

unfoldable pub can_hibernate : Bus → Connection → Connection × Bool
unfolding ensure_sd_connection
can_hibernate b c = asked (λ b. b.ask_text) may "CanHibernate" b (ensure_sd_connection b c)

unfoldable pub can_suspend : Bus → Connection → Connection × Bool
unfolding ensure_sd_connection
can_suspend b c = asked (λ b. b.ask_text) may "CanSuspend" b (ensure_sd_connection b c)

unfoldable pub attempt_hibernate : Bus → Connection → Connection
unfolding ensure_sd_connection
attempt_hibernate b c = requested ignore "Hibernate" (flag true ∷ []) b (ensure_sd_connection b c)

unfoldable pub attempt_suspend : Bus → Connection → Connection
unfolding ensure_sd_connection
attempt_suspend b c = requested ignore "Suspend" (flag true ∷ []) b (ensure_sd_connection b c)

abbrev class_or_null : ℤ × Option String → Option String
class_or_null (pos n, class) = class
class_or_null (negsuc n, class) = none

abbrev class_of : Logind → Option String → Option String
class_of l none = none
class_of l (some session) = class_or_null (l.session_get_class session)

abbrev pub type_with : Logind → Connection × Option ℕ → Connection × Option String
type_with l (c, none) = (c, class_of l l.pid_get_session.1)
type_with l (c, some e) = (c, none)

-- `gsm_systemd_get_current_session_type`, which is the class of the session.
unfoldable pub get_current_session_type : Bus → Logind → Connection → Connection × Option String
unfolding ensure_sd_connection
get_current_session_type b l c = type_with l (ensure_sd_connection b c)
