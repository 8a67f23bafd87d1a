-- ===== src/Examples/Sessions.antt =====
-- Sessions of mate-session/gsm-manager.c at concrete states.
use mate_session_manager.Base.{
  ℕ, ◌+◌, ◌≡◌, ◌≢◌, refl, true, false, not, ◌&&◌, none, some, List, [], ◌∷◌, arith, if◌then◌else◌,
  is_some, is_nil, contains, slist_remove, nat_eq, ltb, ◌==◌,
}
use Prim.Native.Nat.{bit_and}
use mate_session_manager.Store
use mate_session_manager.Store.{Store}
use mate_session_manager.Client.{Client, registered, never, dbus}
use mate_session_manager.Inhibitor.{Inhibitor, has_flag, has_client_id}
use mate_session_manager.Manager.Types.{
  Manager, World, App, panel, running, query_end_session, end_session, normal, no_confirmation,
  force, logout, cancel, to_sleep, accept, general, not_in_running, locked_down, invalid_option,
  ask_logout, dialog_aborted, emit, client_query, client_end, inhibit_dialog_presented,
}
use mate_session_manager.Manager.Queries.{
  is_logout_inhibited, is_inhibited_by, is_inhibited, is_idle_inhibited, is_session_running,
}
use mate_session_manager.Manager.Phases.{end_phase, start_phase, end_phase_with, start_phase_with}
use mate_session_manager.Manager.Phases.Asked.{each_gets, forceful, saving}
use mate_session_manager.Manager.Phases.Rest.{IsAtRest}
use mate_session_manager.Manager.Phases.Fuel.{end_phase_unrolls}
use mate_session_manager.Manager.Dialogs.{inhibit_dialog_response, remove_inhibitors}
use mate_session_manager.Manager.Dialogs.Rest.{KeepsControl}
use mate_session_manager.Manager.EndSession.{
  Answer, handle_client_end_session_response, on_query_end_session_timeout,
  query_end_session_complete, generate_unique_cookie,
}
use mate_session_manager.Manager.EndSession.Objections.{objection_holds, silence_holds}
use mate_session_manager.Manager.EndSession.Progress.{all_well_ends}
use mate_session_manager.Manager.Apps.{Files}
use mate_session_manager.Services.{fresh}
use mate_session_manager.Startup.{Outside, Settings, load_standard_apps}
use mate_session_manager.Startup.Loaded.{Apart, startup-Apart}
use mate_session_manager.Examples.Buses.{bus, logind}
use mate_session_manager.Examples.Saves.{environment}
use mate_session_manager.Manager.EndSession.Reuse.{cancelled_reuse_strands}
use mate_session_manager.Manager.Clients.{ok, err}
use mate_session_manager.Manager.Inhibit.{inhibit, uninhibit}
use mate_session_manager.Manager.Inhibit.Flags.{is_refused, inhibit-is_inhibited, IsWatchful}
use mate_session_manager.Manager.Inhibit.Roundtrip.{uninhibit-inhibit}
use mate_session_manager.Manager.Requests.{
  request_logout, manager_logout, user_logout, logout_dialog_response,
}
use mate_session_manager.Manager.Requests.Refusals.{
  mode_num, request_logout-asks, manager_logout_reply, dialog_aborts_after_logout,
}
use mate_session_manager.Manager.Events.{
  Event, registers, app_reports, asks_logout, query_timer, phase_timer, inhibits, inhibit_answered,
  handle, initial, session,
}
use mate_session_manager.Manager.Events.Reach.{handle-IsAtRest, session-IsAtRest}

-- A desktop where every process starts and every client can be told.
abbrev desk : World
desk = record {
  log_out_disabled = false;
  user_switch_disabled = false;
  auto_save = true;
  logout_prompt = false;
  logind_running = true;
  is_login_window = false;
  last_session = false;
  can_suspend = true;
  can_hibernate = true;
  gets_privileges = true;
  app_starts = λ _. true;
  query_sent = λ _. true;
  end_sent = λ _. true;
  random = λ i. i + 1000;
  rounds = 4;
}

abbrev the_panel : App
the_panel = record {
  id = 1;
  app_id = some "mate-panel";
  startup_id = some "panel-1";
  phase = panel;
  disabled = false;
  conditionally_disabled = false;
  autostart_delay = 0;
  autorestart = true;
  is_running = false;
}

abbrev the_apps : Store ℕ App
the_apps = record { objects = (1, the_panel) ∷ []; locked = false }

abbrev editor : Client
editor = record {
  id = 7;
  kind = dbus;
  startup_id = some "editor-1";
  app_id = some "editor";
  app_name = none;
  bus_name = some ":1.7";
  status = registered;
  restart_style_hint = never;
}

abbrev objection : Answer
objection = record { is_ok = false; do_last = false; cancels = false; reason = some "Unsaved work" }

-- The panel registers, a program inhibits the logout, the user logs out and forces it.
abbrev a_day : List (World × Event)
a_day =
    (desk, registers (some "mate-panel") (some "panel-1") "gen-1" ":1.5")
    ∷ (desk, app_reports 1)
    ∷ (desk, inhibits (some "burner") 0 (some "Burning") 1 ":1.9")
    ∷ (desk, asks_logout 1)
    ∷ (desk, query_timer)
    ∷ (desk, inhibit_answered accept)
    ∷ (desk, phase_timer)
    ∷ []

-- A session that runs, with one client.
abbrev at_work : Manager
at_work = record (initial the_apps false 5) {
  phase = running;
  pending_apps = [];
  phase_timeout = false;
  inhibitors = Store.new;
  inhibitor_serial = 1;
  inhibit_dialog = none;
  logout_mode = normal;
  draws = 0;
  clients = record { objects = (7, editor) ∷ []; locked = false };
}

-- The same session while the client is asked.
abbrev asked : Manager
asked = record at_work {
  phase = query_end_session;
  logout_type = logout;
  query_timeout = true;
  query_clients = 7 ∷ [];
}

abbrev burner : Inhibitor
burner = record {
  id = 3;
  bus_name = some ":1.9";
  app_id = some "burner";
  client_id = none;
  reason = some "Burning";
  flags = 5;
  toplevel_xid = 0;
  cookie = 1000;
}

-- The same with a dialog about suspending that is open.
abbrev asked_late : Manager
asked_late = record asked {
  inhibitors = record { objects = (3, burner) ∷ []; locked = false };
  inhibit_dialog = some to_sleep;
}

session-IsAtRest_example : IsAtRest (session desk the_apps true 5 a_day)
session-IsAtRest_example = session-IsAtRest desk the_apps true 5 a_day

objection_holds_example :
    let n = handle_client_end_session_response desk editor objection asked in
    (n.phase ≡ query_end_session)
    × (is_logout_inhibited n ≡ true)
    × (is_nil n.query_clients ≡ true → is_some n.inhibit_dialog ≡ true)
    × (n.query_clients ≡ [])
unfolding slist_remove
objection_holds_example = objection_holds desk editor objection asked refl refl refl refl refl

silence_holds_example :
    let n = on_query_end_session_timeout desk asked in
    (n.phase ≡ query_end_session)
    × (is_logout_inhibited n ≡ true)
    × (is_some n.inhibit_dialog ≡ true)
    × (n.query_clients ≡ [])
unfolding Store.lookup
silence_holds_example = silence_holds desk asked refl refl refl

handle-IsAtRest_example : IsAtRest (handle desk phase_timer (session desk the_apps true 5 []))
handle-IsAtRest_example =
    handle-IsAtRest desk phase_timer (session desk the_apps true 5 [])
      (session-IsAtRest desk the_apps true 5 [])

end_phase_unrolls_example :
    (end_phase desk asked ≡ end_phase_with (start_phase desk) desk asked)
    × (start_phase desk asked ≡ start_phase_with (end_phase desk) desk asked)
end_phase_unrolls_example = end_phase_unrolls desk asked

request_logout-asks_example :
    let n = request_logout desk force at_work in
    (desk.log_out_disabled ≡ true → (n.phase ≡ running) × (n.effects ≡ at_work.effects))
    × (desk.log_out_disabled ≡ false
        → (n.phase ≡ query_end_session)
          × (n.query_timeout ≡ true)
          × (n.logout_mode ≡ force)
          × (n.logout_type ≡ logout)
          × (n.effects ≡ each_gets (λ c. client_query c 1) at_work.clients.objects at_work.effects)
          × (contains 7 n.query_clients ≡ true))
request_logout-asks_example = request_logout-asks desk force 7 at_work refl

manager_logout_reply_example :
    let (n, reply) = manager_logout desk 2 at_work in
    (reply ≡ (
      if not (is_session_running at_work)
      then err not_in_running
      else if desk.log_out_disabled
      then err locked_down
      else if ltb 2 2
      then err invalid_option
      else ok tt))
    × (reply ≢ ok tt → n ≡ at_work)
    × (reply ≡ ok tt
        → if (2 == 0) && desk.logout_prompt
          then (n.phase ≡ running) × (n.logout_dialog ≡ true) × (n.logout_mode ≡ normal)
          else (n.phase ≡ query_end_session)
            × (n.query_timeout ≡ true)
            × (2 ≡ mode_num n.logout_mode)
            × (n.logout_type ≡ logout))
manager_logout_reply_example = manager_logout_reply desk 2 at_work

uninhibit-inhibit_example :
    let (n, reply) = inhibit desk (some "burner") 0 (some "Burning") 1 ":1.9" at_work in
    let cookie = (generate_unique_cookie desk at_work).0 in
    let (o, done) = uninhibit desk cookie n in
    (reply ≡ ok cookie)
    × (done ≡ ok tt)
    × (o.inhibitors.objects ≡ at_work.inhibitors.objects)
    × KeepsControl at_work o
    × IsWatchful o
unfolding Store.lookup Store.find
uninhibit-inhibit_example =
    uninhibit-inhibit desk desk (some "burner") 0 (some "Burning") 1 ":1.9" 0 at_work refl refl refl
      refl (omega arith) refl

inhibit-is_inhibited_example :
    let (n, reply) = inhibit desk (some "burner") 0 (some "Burning") 5 ":1.9" at_work in
    (is_refused (some "burner") (some "Burning") 5 at_work ≡ true
      → (n ≡ at_work) × (reply ≡ err general))
    × (is_refused (some "burner") (some "Burning") 5 at_work ≡ false
        → (reply ≡ ok (generate_unique_cookie desk at_work).0)
          × (n.presence.idle_enabled ≡ not (is_idle_inhibited n))
          × ((bit_and 5 4 == 0) ≡ false → (is_inhibited_by 4 n ≡ true) × (is_inhibited 4 n ≡ true)))
inhibit-is_inhibited_example =
    inhibit-is_inhibited desk (some "burner") 0 (some "Burning") 5 ":1.9" 4 at_work refl

dialog_aborts_after_logout_example :
    let n = user_logout desk no_confirmation at_work in
    (n.logout_dialog ≡ at_work.logout_dialog)
    × (logout_dialog_response desk ask_logout n ≡ emit dialog_aborted n)
dialog_aborts_after_logout_example =
    dialog_aborts_after_logout desk no_confirmation ask_logout at_work (λ e. cc) refl refl

cancelled_reuse_strands_example :
    let n = query_end_session_complete desk asked_late in
    let o = inhibit_dialog_response desk cancel n in
    (n ≡ emit inhibit_dialog_presented (record asked_late { query_timeout = false }))
    × (o.phase ≡ query_end_session)
    × (o.query_timeout ≡ false)
    × (o.phase_timeout ≡ asked_late.phase_timeout)
    × (o.inhibit_dialog ≡ none)
    × (is_logout_inhibited o ≡ true)
unfolding is_logout_inhibited is_inhibited_by Store.find has_flag
cancelled_reuse_strands_example =
    cancelled_reuse_strands desk to_sleep asked_late refl refl refl refl

abbrev consent : Answer
consent = record { is_ok = true; do_last = false; cancels = false; reason = none }

all_well_ends_example :
    let left =
      remove_inhibitors desk (has_client_id editor.id) (record asked { query_clients = [] }) in
    let n = handle_client_end_session_response desk editor consent asked in
    (n.phase ≡ end_session)
    × (n.phase_timeout ≡ true)
    × (n.logout_type ≡ logout)
    × (n.effects
        ≡ each_gets
            (λ j. client_end j (forceful asked.logout_mode + saving desk.auto_save))
            asked.clients.objects
            left.effects)
    × (contains 7 n.query_clients ≡ true)
unfolding is_logout_inhibited is_inhibited_by Store.find slist_remove Store.size
all_well_ends_example = all_well_ends desk editor consent 7 asked refl refl refl refl refl refl refl

-- A directory with one file, of an application that is there already under another identifier.
abbrev disk : Files
disk = record {
  load = λ _. some (record the_panel { id = 2 });
  provides = λ _ _. false;
  read_dir = λ _. some ("panel.desktop" ∷ []);
  is_desktop = λ _. true;
  build_filename = λ d n. n;
}

abbrev outside : Outside
outside = record {
  environment = environment;
  search = record {
    load_from_dirs = λ name dirs. some name;
    plain = λ name. name;
    vendor = λ name. name;
  };
  files = disk;
  saved_session_dir = "saved";
  logind_running = true;
  bus = bus;
  logind = logind;
  systemd = fresh;
  consolekit = fresh;
}

abbrev settings : Settings
settings = record {
  default_apps = "panel" ∷ [];
  required_components = some ("windowmanager" ∷ []);
  provider = λ component. some "marco";
  mobility_startup = false;
  mobility = none;
  visual_startup = true;
  visual = some "orca";
  autosave = true;
}

startup-Apart_example : Apart (load_standard_apps outside settings false at_work)
unfolding initial Store.find_in
startup-Apart_example = startup-Apart outside settings false at_work (refl, refl, tt)
