-- ===== src/Startup.antt =====
-- mate-session/main.c: the applications that a session begins with. The settings, the files and what the
-- services answer are parameters.
pub mod Loaded
use mate_session_manager.Base.{
  ℕ, Bool, true, false, not, Option, none, some, List, [], ◌∷◌, String, if◌then◌else◌,
  is_string_empty, strcmp_eq,
}
use mate_session_manager.Util.{Environment, find_desktop_file_for_app_name, get_autostart_dirs}
use mate_session_manager.Util
use mate_session_manager.Manager.Types.{Manager}
use mate_session_manager.Manager.Apps.{Files, add_autostart_app, add_autostart_apps_from_dir}
use mate_session_manager.Services.{Bus, Connection}
use mate_session_manager.Services.Consolekit
use mate_session_manager.Services.Systemd
use mate_session_manager.Services.Systemd.{Logind, strcmp0_eq}

-- The settings that are read: the default applications, the required components with the provider of
-- each, the two accessibility tools with whether each is to start, and whether sessions are saved.
pub record Settings : Type 0 where
  pub default_apps : List String
  pub required_components : Option (List String)
  pub provider : String → Option String
  pub mobility_startup : Bool
  pub mobility : Option String
  pub visual_startup : Bool
  pub visual : Option String
  pub autosave : Bool

-- The outside: the directories, the two searches for files, the saved session, LOGIND_RUNNING, and the
-- services with their connections.
pub record Outside : Type 0 where
  pub environment : Environment
  pub search : Util.Files
  pub files : Files
  pub saved_session_dir : String
  pub logind_running : Bool
  pub bus : Bus
  pub logind : Logind
  pub systemd : Connection
  pub consolekit : Connection

-- An application of a name, if a desktop file for it is found.
abbrev pub add_found : Outside → Option String → Option String → Manager → Manager
add_found o service none m = m
add_found o service (some path) m = (add_autostart_app o.files path service m).0

unfoldable pub append_default_apps : Outside → List String → List String → Manager → Manager
unfolding find_desktop_file_for_app_name add_autostart_app
append_default_apps o dirs [] m = m
append_default_apps o dirs (name ∷ l) m = append_default_apps o dirs l (
    if is_string_empty (some name)
    then m
    else add_found o none (find_desktop_file_for_app_name o.environment o.search name (some dirs))
        m)

-- One required component, by its provider.
abbrev pub add_provider : Outside → String → Option String → Manager → Manager
add_provider o component none m = m
add_provider o component (some provider) m =
    add_found o (some component)
      (find_desktop_file_for_app_name o.environment o.search provider none) m

abbrev pub append_each : Outside → (String → Option String) → List String → Manager → Manager
append_each o provider [] m = m
append_each o provider (component ∷ l) m = append_each o provider l (
    if is_string_empty (some component) then m else add_provider o component (provider component) m)

unfoldable pub append_required_apps : Outside → Settings → Manager → Manager
unfolding find_desktop_file_for_app_name add_autostart_app
append_required_apps o s m = elim s.required_components [
  | none ↦ m
  | some components ↦ append_each o s.provider components m
]

abbrev pub add_tool : Outside → Bool → Option String → Manager → Manager
add_tool o startup none m = m
add_tool o startup (some exec) m =
    if not startup
    then m
    else if is_string_empty (some exec)
    then m
    else add_found o none (find_desktop_file_for_app_name o.environment o.search exec none) m

unfoldable pub append_accessibility_apps : Outside → Settings → Manager → Manager
unfolding find_desktop_file_for_app_name add_autostart_app
append_accessibility_apps o s m =
    add_tool o s.visual_startup s.visual (add_tool o s.mobility_startup s.mobility m)

-- GSM_SYSTEMD_SESSION_TYPE_LOGIN_WINDOW, GSM_CONSOLEKIT_SESSION_TYPE_LOGIN_WINDOW.
unfoldable pub is_login : Outside → Bool
unfolding Systemd.get_current_session_type Consolekit.get_current_session_type
is_login o =
    if o.logind_running
    then strcmp0_eq (Systemd.get_current_session_type o.bus o.logind o.systemd).1 "greeter"
    else strcmp0_eq (Consolekit.get_current_session_type o.bus o.consolekit).1 "LoginWindow"

unfoldable pub maybe_load_saved_session_apps : Outside → Settings → Manager → Manager
unfolding is_login add_autostart_apps_from_dir
maybe_load_saved_session_apps o s m =
    if is_login o
    then m
    else if s.autosave
    then (add_autostart_apps_from_dir o.files o.saved_session_dir m).0
    else m

-- The loop over directories, of `load_standard_apps` and of `load_override_apps`.
unfoldable pub load_override_apps : Outside → List String → Manager → Manager
unfolding add_autostart_apps_from_dir
load_override_apps o [] m = m
load_override_apps o (dir ∷ l) m =
    load_override_apps o l (add_autostart_apps_from_dir o.files dir m).0

unfoldable pub load_standard_apps : Outside → Settings → Bool → Manager → Manager
unfolding get_autostart_dirs maybe_load_saved_session_apps load_override_apps append_default_apps
    append_required_apps append_accessibility_apps
load_standard_apps o s failsafe m =
    let dirs = get_autostart_dirs o.environment in
    let read =
      if failsafe then m else load_override_apps o dirs (maybe_load_saved_session_apps o s m) in
    append_accessibility_apps o s
      (append_required_apps o s (append_default_apps o dirs s.default_apps read))
