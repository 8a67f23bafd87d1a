-- ===== src/Services/History/BySystemd.antt =====
-- Each request to systemd-logind keeps its connection sound (mate-session/gsm-systemd.c).
use mate_session_manager.Base.{ℕ, Bool, true, false, Option, none, some, [], ◌∷◌, String}
use mate_session_manager.Services.{
  Connection, Bus, flag, text, restarting, stopping, ensure, emit_complete, ignore, may,
}
use mate_session_manager.Services.Systemd
use mate_session_manager.Services.Systemd.{Logind}
use mate_session_manager.Services.History.{
  Request, owner_changes, message_arrives, restarts, stops, suspends, hibernates, says_idle,
  asks_switch_user, asks_restart, asks_stop, asks_suspend, asks_hibernate, asks_type,
  wants_restart_privileges, wants_stop_privileges, by_systemd, IsSound,
}
use mate_session_manager.Services.History.Blocks.{
  Ready, ensure-Ready, owner_changed-IsSound, completed-IsSound, requested-IsSound, asked-IsSound,
  Linked, note_sent-Linked, hint_idle-IsSound, free_dbus-IsSound, privileges-IsSound,
  ignore-IsSound,
}

path_of-Linked :
    (b : Bus) (session : Option String) (c : Connection)
    → Linked c
    → Linked (Systemd.path_of b session c).0
path_of-Linked b none c h = h
path_of-Linked b (some session) c h =
    note_sent-Linked (b.message Systemd.sd_path "GetSession" (text session ∷ [])) Systemd.sd_path
      "GetSession" (text session ∷ []) c h

idle-IsSound :
    (b : Bus) (l : Logind) (is_idle : Bool) (r : Connection × Option ℕ)
    → Ready r
    → IsSound (Systemd.idle_with b l is_idle r)
unfolding Systemd.get_session_path
idle-IsSound b l is_idle (c, none) (s, there, live) =
    hint_idle-IsSound b is_idle (Systemd.get_session_path b l c)
      (path_of-Linked b l.pid_get_session.1 c (s, there))
idle-IsSound b l is_idle (c, some e) s = s

switch-IsSound :
    (l : Logind) (r : Connection × Option ℕ) → Ready r → IsSound (Systemd.switch_with l r).0
switch-IsSound l (c, none) h = h.0
switch-IsSound l (c, some e) s = s

type-IsSound :
    (l : Logind) (r : Connection × Option ℕ) → Ready r → IsSound (Systemd.type_with l r).0
type-IsSound l (c, none) h = h.0
type-IsSound l (c, some e) s = s

pub by_systemd-IsSound :
    (l : Logind) (b : Bus) (r : Request) (c : Connection) → IsSound c → IsSound (by_systemd l b r c)
unfolding Systemd.on_name_owner_changed Systemd.dbus_filter Systemd.attempt_restart
    Systemd.attempt_stop Systemd.attempt_suspend Systemd.attempt_hibernate Systemd.set_session_idle
    Systemd.can_switch_user Systemd.can_restart Systemd.can_stop Systemd.can_suspend
    Systemd.can_hibernate Systemd.get_current_session_type Systemd.get_restart_privileges
    Systemd.get_stop_privileges Systemd.emit_restart_complete Systemd.emit_stop_complete
by_systemd-IsSound l b (owner_changes name) c s = owner_changed-IsSound Systemd.sd_name b name c s
by_systemd-IsSound l b (message_arrives true) c s = free_dbus-IsSound c s
by_systemd-IsSound l b (message_arrives false) c s = s
by_systemd-IsSound l b restarts c s =
    requested-IsSound (emit_complete restarting) (completed-IsSound restarting) "Reboot"
      (flag true ∷ []) b (ensure b c) (ensure-Ready b c s)
by_systemd-IsSound l b stops c s =
    requested-IsSound (emit_complete stopping) (completed-IsSound stopping) "PowerOff"
      (flag true ∷ []) b (ensure b c) (ensure-Ready b c s)
by_systemd-IsSound l b suspends c s =
    requested-IsSound ignore ignore-IsSound "Suspend" (flag true ∷ []) b (ensure b c)
      (ensure-Ready b c s)
by_systemd-IsSound l b hibernates c s =
    requested-IsSound ignore ignore-IsSound "Hibernate" (flag true ∷ []) b (ensure b c)
      (ensure-Ready b c s)
by_systemd-IsSound l b (says_idle is_idle) c s =
    idle-IsSound b l is_idle (ensure b c) (ensure-Ready b c s)
by_systemd-IsSound l b asks_switch_user c s = switch-IsSound l (ensure b c) (ensure-Ready b c s)
by_systemd-IsSound l b asks_restart c s =
    asked-IsSound (λ b. b.ask_text) may "CanReboot" b (ensure b c) (ensure-Ready b c s)
by_systemd-IsSound l b asks_stop c s =
    asked-IsSound (λ b. b.ask_text) may "CanPowerOff" b (ensure b c) (ensure-Ready b c s)
by_systemd-IsSound l b asks_suspend c s =
    asked-IsSound (λ b. b.ask_text) may "CanSuspend" b (ensure b c) (ensure-Ready b c s)
by_systemd-IsSound l b asks_hibernate c s =
    asked-IsSound (λ b. b.ask_text) may "CanHibernate" b (ensure b c) (ensure-Ready b c s)
by_systemd-IsSound l b asks_type c s = type-IsSound l (ensure b c) (ensure-Ready b c s)
by_systemd-IsSound l b wants_restart_privileges c s = privileges-IsSound c s
by_systemd-IsSound l b wants_stop_privileges c s = privileges-IsSound c s
