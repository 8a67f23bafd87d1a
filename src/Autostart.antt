-- ===== src/Autostart.antt =====
-- mate-session/gsm-autostart-app.c: an application that a desktop file describes. Desktop files, the
-- file system, settings and processes are outside. A text that is taken apart is the list of
-- its bytes.
pub mod Parse
pub mod Conditions
pub mod Launch
use mate_session_manager.Base.{
  ℕ, suc, ℤ, pos, negsuc, is_negative, Bool, true, false, not, ◌&&◌, ◌||◌, Option, none, some, List,
  [], ◌∷◌, String, if◌then◌else◌, ◌==◌, leb, is_some, strcmp_eq, contains, slist_remove,
}
use mate_session_manager.Manager.Types.{
  App, Phase, initialization, window_manager, panel, desktop, application,
}

-- What the parser of desktop files (`EggDesktopFile`) says of one file. The condition is given apart,
-- as its bytes.
pub record DesktopFile : Type 0 where
  pub get_string : String → Option String
  pub get_boolean : String → Bool
  pub has_key : String → Bool
  pub get_integer : String → ℤ
  pub get_string_list : String → Option (List String)
  pub condition : Option (List ℕ)
  pub can_launch : Bool
  pub source : List ℕ

-- What the file system, under the user's directory of settings, and GSettings say.
pub record Surroundings : Type 0 where
  pub file_exists : List ℕ → Bool
  pub has_schema : List ℕ → Bool
  pub setting : List ℕ → List ℕ → Bool

-- The kinds of condition; GSM_CONDITION_NONE is not used.
pub data ConditionKind : Type 0 where
  if_exists unless_exists mate gsettings unknown : ConditionKind

pub data LaunchType : Type 0 where
  spawn activate : LaunchType

-- `GsmAutostartAppPrivate`, with the phase and the startup id of `GsmAppPrivate`. A file monitor is
-- kept as the kind of its handler and its file, the settings as the schema and the key whose
-- changes are heard. `child_watches` are the processes with `app_exited` connected,
-- `child_watch_id` the one that can be disconnected, and `signals` the values of "condition-changed", the latest first.
pub record Autostart : Type 0 where
  pub desktop_file : Option DesktopFile
  pub condition_string : Option (List ℕ)
  pub condition : Bool
  pub autorestart : Bool
  pub autostart_delay : ℤ
  pub condition_monitor : Option (ConditionKind × List ℕ)
  pub condition_settings : Option (List ℕ × List ℕ)
  pub launch_type : LaunchType
  pub pid : ℤ
  pub child_watches : List ℕ
  pub child_watch_id : Option ℕ
  pub phase : Phase
  pub startup_id : Option String
  pub signals : List Bool

-- The number that stands for no process, and for no delay.
abbrev pub no_number : ℤ
no_number = negsuc 0

-- `gsm_autostart_app_init`, with the desktop file of the constructor.
abbrev pub new : Option DesktopFile → Autostart
new file = record {
  desktop_file = file;
  condition_string = none;
  condition = false;
  autorestart = false;
  autostart_delay = no_number;
  condition_monitor = none;
  condition_settings = none;
  launch_type = spawn;
  pid = no_number;
  child_watches = [];
  child_watch_id = none;
  phase = Phase.startup;
  startup_id = none;
  signals = [];
}

abbrev disables : DesktopFile → Bool
disables f = f.get_boolean "Hidden" || not f.can_launch

unfoldable pub is_disabled : Autostart → Bool
is_disabled a = elim a.desktop_file [ none ↦ true | some f ↦ disables f ]

unfoldable pub is_running : Autostart → Bool
is_running a = elim a.pid [ pos n ↦ true | negsuc n ↦ not (n == 0) ]

-- The phase that a desktop file names.
unfoldable pub phase_of : Option String → Phase
phase_of none = application
phase_of (some s) =
    if strcmp_eq s "Initialization"
    then initialization
    else if strcmp_eq s "WindowManager"
    then window_manager
    else if strcmp_eq s "Panel"
    then panel
    else if strcmp_eq s "Desktop"
    then desktop
    else application

abbrev or_fresh : Option String → String → String
or_fresh none fresh = fresh
or_fresh (some s) fresh = s

-- A delay below 0 is no delay.
abbrev valid_delay : ℤ → ℤ
valid_delay n = if is_negative n then no_number else n

unfoldable pub delay_of : Phase → DesktopFile → ℤ → ℤ
delay_of application f old = valid_delay (f.get_integer "X-MATE-Autostart-Delay")
delay_of _ f old = old

-- `load_desktop_file` before and after `setup_condition_monitor`; `fresh` is the identifier that
-- `gsm_util_generate_startup_id` makes up.
unfoldable pub load_from : (Autostart → Autostart) → String → DesktopFile → Autostart → Autostart
unfolding phase_of delay_of
load_from setup fresh f a =
    let phase = phase_of (f.get_string "X-MATE-Autostart-Phase") in
    let name = f.get_string "X-MATE-DBus-Name" in
    let b = setup (record a {
      launch_type = elim name [ none ↦ spawn | some _ ↦ activate ];
      autorestart =
          if f.has_key "X-MATE-AutoRestart" then f.get_boolean "X-MATE-AutoRestart" else false;
      condition_string = f.condition;
    }) in
    record b {
      autostart_delay = delay_of phase f b.autostart_delay;
      phase = phase;
      startup_id = some (elim name [
        | none ↦ or_fresh (f.get_string "X-MATE-Autostart-startup-id") fresh
        | some n ↦ n
      ]);
    }

unfoldable pub provides : String → Autostart → Bool
provides service a = elim a.desktop_file [
  | none ↦ false
  | some f ↦ elim (f.get_string_list "X-MATE-Provides") [
    | none ↦ false
    | some names ↦ any_equal service names
  ]
]
  where
    any_equal : String → List String → Bool
    any_equal s [] = false
    any_equal s (n ∷ r) = strcmp_eq n s || any_equal s r

unfoldable pub get_autorestart : Autostart → Bool
get_autorestart a = elim a.desktop_file [
  | none ↦ false
  | some f ↦ if f.has_key "X-MATE-AutoRestart" then f.get_boolean "X-MATE-AutoRestart" else false
]

-- The part of a path after its last slash.
unfoldable pub after_slash : List ℕ → List ℕ → List ℕ
after_slash last [] = last
after_slash last (c ∷ r) = after_slash (if c == 47 then r else last) r

unfoldable pub get_app_id : Autostart → Option (List ℕ)
unfolding after_slash
get_app_id a = elim a.desktop_file [ none ↦ none | some f ↦ some (after_slash f.source f.source) ]

abbrev as_text : (List ℕ → String) → Option (List ℕ) → Option String
as_text text none = none
as_text text (some s) = some (text s)

-- What the manager waits: only a delay above 0 counts.
abbrev pub delay_seen : ℤ → ℕ
delay_seen (pos n) = n
delay_seen (negsuc _) = 0

-- The application as the manager sees it, where `text` makes a text of bytes; `conditionally_disabled` is what
-- `is_conditionally_disabled` says at that time.
unfoldable pub view : (List ℕ → String) → ℕ → Bool → Autostart → App
unfolding is_disabled is_running get_autorestart get_app_id
view text id conditionally_disabled a = record {
  id = id;
  app_id = as_text text (get_app_id a);
  startup_id = a.startup_id;
  phase = a.phase;
  disabled = is_disabled a;
  conditionally_disabled = conditionally_disabled;
  autostart_delay = delay_seen a.autostart_delay;
  autorestart = get_autorestart a;
  is_running = is_running a;
}
