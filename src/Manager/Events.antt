-- ===== src/Manager/Events.antt =====
-- The session as a machine: what may happen to the manager while its main loop waits
-- (mate-session/gsm-manager.c), and the handler that each happening runs. Settings that change and
-- XSMP clients that connect or change their properties are no events here.
pub mod Reach
use mate_session_manager.Base.{
  ℕ, ◌*◌, ◌%◌, Bool, true, false, not, Option, none, some, List, [], ◌∷◌, String, if◌then◌else◌,
  ltb, nat_eq,
}
use mate_session_manager.Store
use mate_session_manager.Store.{Store}
use mate_session_manager.Client.{Client}
use mate_session_manager.Presence
use mate_session_manager.Manager.Phases.{start, app_signal, on_phase_timeout}
use mate_session_manager.Manager.Dialogs.{inhibit_dialog_response}
use mate_session_manager.Manager.EndSession.{
  Answer, handle_client_end_session_response, on_query_end_session_timeout,
}
use mate_session_manager.Manager.Clients.{
  on_client_disconnected, bus_filter, bus_name_owner_changed, register_client, unregister_client,
  on_xsmp_client_register_request, app_condition_changed,
}
use mate_session_manager.Manager.Inhibit.{inhibit, uninhibit}
use mate_session_manager.Manager.Requests.{
  logout_dialog_response, reboot_privileges_completed, shutdown_privileges_completed,
  manager_logout, manager_shutdown, manager_request_shutdown, manager_request_reboot,
  on_xsmp_client_logout_request,
}
use mate_session_manager.Manager.Types.{
  Manager, World, App, startup, normal, no_logout, InhibitResponse, LogoutResponse, Privilege,
  to_restart, to_stop,
}

pub data Event : Type 0 where
  phase_timer query_timer : Event
  app_reports : ℕ → Event
  condition_changes : ℕ → Bool → Event
  client_answers : ℕ → Answer → Event
  client_leaves : ℕ → Event
  name_changes : String → String → Event
  registers : Option String → Option String → String → String → Event
  unregisters : ℕ → Event
  xsmp_registers : ℕ → Option String → String → Event
  inhibits : Option String → ℕ → Option String → ℕ → String → Event
  uninhibits : ℕ → Event
  inhibit_answered : InhibitResponse → Event
  bus_disconnects : Event
  logout_answered : LogoutResponse → Event
  privileges_completed : Privilege → Bool → Bool → Event
  asks_logout : ℕ → Event
  asks_shutdown_dialog asks_shutdown asks_reboot : Event
  xsmp_asks_logout : Bool → Event
  idle_changes : Bool → Event

abbrev pub awaits : Privilege → List Privilege → Bool
awaits p [] = false
awaits to_restart (to_restart ∷ r) = true
awaits to_stop (to_stop ∷ r) = true
awaits p (_ ∷ r) = awaits p r

-- A privilege's handler, which is connected while it is awaited.
unfoldable pub privilege_granted : World → Privilege → Bool → Bool → Manager → Manager
privilege_granted w to_restart success ask_later m =
    if awaits to_restart m.privileges then reboot_privileges_completed w success ask_later m else m
privilege_granted w to_stop success ask_later m =
    if awaits to_stop m.privileges then shutdown_privileges_completed w success ask_later m else m

-- A happening runs its handler. A timer fires while it is set, a dialog answers while it is open,
-- a client of the store answers or leaves; else nothing happens.
unfoldable pub handle : World → Event → Manager → Manager
unfolding privilege_granted
handle w phase_timer m = if m.phase_timeout then on_phase_timeout w m else m
handle w query_timer m = if m.query_timeout then on_query_end_session_timeout w m else m
handle w (app_reports id) m = app_signal w id m
handle w (condition_changes id condition) m = app_condition_changed id condition m
handle w (client_answers id a) m = elim (Store.lookup id m.clients) [
  | none ↦ m
  | some c ↦ handle_client_end_session_response w c a m
]
handle w (client_leaves id) m = elim (Store.lookup id m.clients) [
  | none ↦ m
  | some c ↦ on_client_disconnected w c m
]
handle w (name_changes old_name new_name) m = bus_name_owner_changed w old_name new_name m
handle w bus_disconnects m = bus_filter w m
handle w (registers app_id startup_id fresh sender) m =
    (register_client w app_id startup_id fresh sender m).0
handle w (unregisters id) m = (unregister_client id m).0
handle w (xsmp_registers id asked fresh) m = (on_xsmp_client_register_request w id asked fresh m).0
handle w (inhibits app_id xid reason flags sender) m =
    (inhibit w app_id xid reason flags sender m).0
handle w (uninhibits cookie) m = (uninhibit w cookie m).0
handle w (inhibit_answered r) m = inhibit_dialog_response w r m
handle w (logout_answered r) m = if m.logout_dialog then logout_dialog_response w r m else m
handle w (privileges_completed p success ask_later) m = privilege_granted w p success ask_later m
handle w (asks_logout mode) m = (manager_logout w mode m).0
handle w asks_shutdown_dialog m = (manager_shutdown w m).0
handle w asks_shutdown m = (manager_request_shutdown w m).0
handle w asks_reboot m = (manager_request_reboot w m).0
handle w (xsmp_asks_logout show_dialog) m = on_xsmp_client_logout_request w show_dialog m
handle w (idle_changes b) m = record m { presence = (Presence.on_idle_timeout b m.presence).0 }

-- A session: what happens, each time with what the world answers.
unfoldable pub run : List (World × Event) → Manager → Manager
unfolding handle
run [] m = m
run ((w, e) ∷ r) m = run r (handle w e m)

-- The manager as `gsm_manager_init` leaves it, with the applications that were found, an idle
-- monitor or none, the idle delay of the settings in minutes, and the first serial numbers.
unfoldable pub initial : Store ℕ App → Bool → ℕ → Manager
initial apps monitored minutes = record {
  clients = Store.new;
  inhibitors = Store.new;
  apps = apps;
  presence = Presence.set_idle_timeout ((minutes * 60000) % 4294967296) (Presence.new monitored);
  phase = startup;
  phase_timeout = false;
  pending_apps = [];
  handlers = [];
  logout_mode = normal;
  query_clients = [];
  query_timeout = false;
  next_query_clients = [];
  logout_type = no_logout;
  inhibit_dialog = none;
  condition_clients = [];
  dbus_disconnected = false;
  inhibitor_serial = 1;
  client_serial = 1;
  draws = 0;
  logout_dialog = false;
  privileges = [];
  effects = [];
}

-- `gsm_manager_start`, then the main loop.
unfoldable pub session : World → Store ℕ App → Bool → ℕ → List (World × Event) → Manager
unfolding run initial
session w apps monitored minutes l = run l (start w (initial apps monitored minutes))
