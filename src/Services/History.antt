-- ===== src/Services/History.antt =====
-- Everything that is done with the two services while the program runs, in any order
-- (mate-session/gsm-consolekit.c, gsm-systemd.c).
pub mod Blocks
pub mod ByConsolekit
pub mod BySystemd
pub mod Sound
use mate_session_manager.Base.{
  ℕ, ◌≡◌, refl, Bool, true, false, bool_eq, not, ◌&&◌, ◌||◌, Option, none, some, List, [], ◌∷◌,
  String, arith, if◌then◌else◌, strcmp_eq, Bool-cases, inl, inr,
}
use mate_session_manager.Services.{
  Connection, Bus, Event, notify, called, sent, request_completed, privileges_completed, Arg, flag,
  ServiceError, ensure, requested, asked, emit_complete, ignore, emit, free_dbus, fresh, note_sent,
  Reply, unallocated, refused, replied, Answer, hint_idle, owner_changed, is_service,
}
use mate_session_manager.Services.Contract.{chained, ensure_lem, is_none}
use mate_session_manager.Services.Consolekit
use mate_session_manager.Services.Systemd
use mate_session_manager.Services.Systemd.{Logind}

-- What the program does with a service, or the bus tells it.
pub data Request : Type 0 where
  owner_changes : Option String → Request
  message_arrives : Bool → Request
  restarts stops suspends hibernates : Request
  says_idle : Bool → Request
  asks_switch_user asks_restart asks_stop asks_suspend asks_hibernate asks_type : Request
  wants_restart_privileges wants_stop_privileges : Request

abbrev pub by_consolekit : Bus → Request → Connection → Connection
by_consolekit b (owner_changes name) c = Consolekit.on_name_owner_changed b name c
by_consolekit b (message_arrives gone) c = (Consolekit.dbus_filter gone c).0
by_consolekit b restarts c = Consolekit.attempt_restart b c
by_consolekit b stops c = Consolekit.attempt_stop b c
by_consolekit b suspends c = Consolekit.attempt_suspend b c
by_consolekit b hibernates c = Consolekit.attempt_hibernate b c
by_consolekit b (says_idle is_idle) c = Consolekit.set_session_idle b is_idle c
by_consolekit b asks_switch_user c = (Consolekit.can_switch_user b c).0
by_consolekit b asks_restart c = (Consolekit.can_restart b c).0
by_consolekit b asks_stop c = (Consolekit.can_stop b c).0
by_consolekit b asks_suspend c = (Consolekit.can_suspend b c).0
by_consolekit b asks_hibernate c = (Consolekit.can_hibernate b c).0
by_consolekit b asks_type c = (Consolekit.get_current_session_type b c).0
by_consolekit b wants_restart_privileges c = (Consolekit.get_restart_privileges c).0
by_consolekit b wants_stop_privileges c = (Consolekit.get_stop_privileges c).0

abbrev pub by_systemd : Logind → Bus → Request → Connection → Connection
by_systemd l b (owner_changes name) c = Systemd.on_name_owner_changed b name c
by_systemd l b (message_arrives gone) c = (Systemd.dbus_filter gone c).0
by_systemd l b restarts c = Systemd.attempt_restart b c
by_systemd l b stops c = Systemd.attempt_stop b c
by_systemd l b suspends c = Systemd.attempt_suspend b c
by_systemd l b hibernates c = Systemd.attempt_hibernate b c
by_systemd l b (says_idle is_idle) c = Systemd.set_session_idle b l is_idle c
by_systemd l b asks_switch_user c = (Systemd.can_switch_user b l c).0
by_systemd l b asks_restart c = (Systemd.can_restart b c).0
by_systemd l b asks_stop c = (Systemd.can_stop b c).0
by_systemd l b asks_suspend c = (Systemd.can_suspend b c).0
by_systemd l b asks_hibernate c = (Systemd.can_hibernate b c).0
by_systemd l b asks_type c = (Systemd.get_current_session_type b l c).0
by_systemd l b wants_restart_privileges c = (Systemd.get_restart_privileges c).0
by_systemd l b wants_stop_privileges c = (Systemd.get_stop_privileges c).0

-- A history, with what the bus and logind answer at each request.
abbrev pub consolekit_after : List (Bus × Request) → Connection → Connection
consolekit_after [] c = c
consolekit_after ((b, r) ∷ l) c = consolekit_after l (by_consolekit b r c)

abbrev pub systemd_after : List (Logind × Bus × Request) → Connection → Connection
systemd_after [] c = c
systemd_after ((l, b, r) ∷ rest) c = systemd_after rest (by_systemd l b r c)

-- No call is made on a proxy that is NULL, and no message on a connection that is.
abbrev pub AllLive : List Event → Type 0
AllLive [] = Unit {0}
AllLive (called live method args ∷ l) = (live ≡ true) × AllLive l
AllLive (sent live path method args ∷ l) = (live ≡ true) × AllLive l
AllLive (request_completed e ∷ l) = AllLive l
AllLive (notify b ∷ l) = AllLive l
AllLive (privileges_completed a b ∷ l) = AllLive l

pub record IsSound (c : Connection) : Type 0 where
  pub chain : chained c.dbus_connection c.bus_proxy c.proxy ≡ true
  pub all_live : AllLive c.log
