-- ===== src/Autostart/Conditions.antt =====
-- The condition of an application, and how changes of it are heard (mate-session/gsm-autostart-app.c).
pub mod Reading
pub mod Tracking
pub mod Bounds
use mate_session_manager.Base.{
  bool_eq, ℕ, Bool, true, false, not, ◌&&◌, ◌||◌, Option, none, some, List, [], ◌∷◌, String,
  if◌then◌else◌, ◌==◌,
}
use mate_session_manager.Autostart.{
  ConditionKind, if_exists, unless_exists, mate, gsettings, unknown, Surroundings, Autostart,
  DesktopFile, is_disabled, load_from,
}
use mate_session_manager.Autostart.Parse.{space, first_word, after_word, parse_condition_string}

-- `g_strsplit (key, " ", 2)`: the part before the first blank and the part after it, either of which
-- may be missing.
abbrev tail_of : List ℕ → Option (List ℕ)
tail_of [] = none
tail_of (c ∷ r) = some r

unfoldable pub split_key : List ℕ → Option (List ℕ) × Option (List ℕ)
split_key [] = (none, none)
split_key (c ∷ r) = (some (first_word (c ∷ r)), tail_of (after_word (c ∷ r)))

-- The part that the handlers share: "condition-changed" is emitted if the value is new.
unfoldable pub take_condition : Bool → Autostart → Autostart
take_condition b a =
    if bool_eq b a.condition then a else record a { condition = b; signals = b ∷ a.signals }

-- What a file monitor reports; `other_event` is any event but CREATED and DELETED.
pub data FileEvent : Type 0 where
  created deleted other_event : FileEvent

-- `if_exists_condition_cb` and `unless_exists_condition_cb`, by the monitor that is set.
unfoldable pub if_exists_condition_cb : FileEvent → Autostart → Autostart
unfolding take_condition
if_exists_condition_cb created a = take_condition true a
if_exists_condition_cb deleted a = take_condition false a
if_exists_condition_cb other_event a = a

unfoldable pub unless_exists_condition_cb : FileEvent → Autostart → Autostart
unfolding take_condition
unless_exists_condition_cb created a = take_condition false a
unless_exists_condition_cb deleted a = take_condition true a
unless_exists_condition_cb other_event a = a

-- `gsettings_condition_cb`.
unfoldable pub gsettings_condition_cb : Surroundings → List ℕ → List ℕ → Autostart → Autostart
unfolding take_condition
gsettings_condition_cb out schema key a = take_condition (out.setting schema key) a

-- `setup_gsettings_condition_monitor`; its result is not used.
unfoldable pub setup_gsettings_condition_monitor : Surroundings → List ℕ → Autostart → Autostart
unfolding split_key
setup_gsettings_condition_monitor out text a = elim (split_key text).0 [
  | none ↦ a
  | some schema ↦ elim (split_key text).1 [
    | none ↦ a
    | some key ↦
        if out.has_schema schema then record a { condition_settings = some (schema, key) } else a
  ]
]

-- The monitor for a condition that was taken apart.
unfoldable pub monitor_for : Surroundings → ConditionKind → List ℕ → Autostart → Autostart
unfolding setup_gsettings_condition_monitor
monitor_for out if_exists key a = record a { condition_monitor = some (if_exists, key) }
monitor_for out unless_exists key a = record a { condition_monitor = some (unless_exists, key) }
monitor_for out mate key a = setup_gsettings_condition_monitor out key a
monitor_for out gsettings key a = setup_gsettings_condition_monitor out key a
monitor_for out unknown key a = a

abbrev pub watch_parsed : Surroundings → ConditionKind × Option (List ℕ) → Autostart → Autostart
watch_parsed out (kind, none) a = a
watch_parsed out (kind, some key) a = monitor_for out kind key a

-- The conditions under which `setup_condition_monitor` returns early: no condition, or disabled.
unfoldable pub setup_for : Surroundings → Option (List ℕ) → Bool → Autostart → Autostart
unfolding monitor_for
setup_for out none disabled a = a
setup_for out (some s) true a = a
setup_for out (some s) false a = watch_parsed out (parse_condition_string s) a

-- `setup_condition_monitor`: what was set before is cancelled.
unfoldable pub setup_condition_monitor : Surroundings → Autostart → Autostart
unfolding setup_for
setup_condition_monitor out a =
    setup_for out a.condition_string (is_disabled a)
      (record a { condition_monitor = none; condition_settings = none })

-- `load_desktop_file`, run by the constructor; without a desktop file it fails.
unfoldable pub load : Surroundings → String → Autostart → Option Autostart
unfolding setup_condition_monitor
load out fresh a = elim a.desktop_file [
  | none ↦ none
  | some f ↦ some (load_from (setup_condition_monitor out) fresh f a)
]

-- The settings' part of `is_conditionally_disabled`: it is read whether the setting is off, with the
-- second part of the key. `none` is a fault: a key that is not there.
unfoldable pub setting_off : Surroundings → List ℕ → Option (List ℕ × List ℕ) → Option Bool
unfolding split_key
setting_off out text none = some true
setting_off out text (some (schema, _)) = elim (split_key text).1 [
  | none ↦ none
  | some key ↦ some (not (out.setting schema key))
]

unfoldable pub parsed_disabled :
    Surroundings → Option (List ℕ × List ℕ) → ConditionKind × Option (List ℕ) → Option Bool
unfolding setting_off
parsed_disabled out settings (kind, none) = some true
parsed_disabled out settings (if_exists, some key) = some (not (out.file_exists key))
parsed_disabled out settings (unless_exists, some key) = some (out.file_exists key)
parsed_disabled out settings (mate, some key) = setting_off out key settings
parsed_disabled out settings (gsettings, some key) = setting_off out key settings
parsed_disabled out settings (unknown, some key) = some true

-- The condition that is remembered; it is left alone if the text cannot be taken apart.
abbrev pub remember : Option (List ℕ) → Bool → Autostart → Autostart
remember none disabled a = a
remember (some _) disabled a = record a { condition = not disabled }

abbrev pub remembered : Option (List ℕ) → Option Bool → Autostart → Option (Autostart × Bool)
remembered key none a = none
remembered key (some disabled) a = some (remember key disabled a, disabled)

-- `is_conditionally_disabled`, by the condition; it remembers the condition as well, and `none` is
-- a fault.
unfoldable pub conditionally_disabled_by :
    Surroundings → Option (List ℕ) → Autostart → Option (Autostart × Bool)
unfolding parsed_disabled
conditionally_disabled_by out none a = some (a, false)
conditionally_disabled_by out (some s) a =
    remembered (parse_condition_string s).1
      (parsed_disabled out a.condition_settings (parse_condition_string s)) a

unfoldable pub is_conditionally_disabled : Surroundings → Autostart → Option (Autostart × Bool)
unfolding conditionally_disabled_by
is_conditionally_disabled out a = conditionally_disabled_by out a.condition_string a

-- The file of a monitor was made or removed, or nothing of the kind.
abbrev pub file_event : Bool → FileEvent
file_event true = created
file_event false = deleted

-- The surroundings have changed, and what listens is told: the file monitor of the file, the
-- settings of their key.
unfoldable pub heard :
    Surroundings
    → Option (ConditionKind × List ℕ)
    → Option (List ℕ × List ℕ)
    → Autostart
    → Autostart
unfolding if_exists_condition_cb unless_exists_condition_cb gsettings_condition_cb
heard out (some (if_exists, file)) settings a =
    if_exists_condition_cb (file_event (out.file_exists file)) a
heard out (some (unless_exists, file)) settings a =
    unless_exists_condition_cb (file_event (out.file_exists file)) a
heard out (some (mate, file)) settings a = a
heard out (some (gsettings, file)) settings a = a
heard out (some (unknown, file)) settings a = a
heard out none (some (schema, key)) a = gsettings_condition_cb out schema key a
heard out none none a = a

unfoldable pub observe : Surroundings → Autostart → Autostart
unfolding heard
observe out a = heard out a.condition_monitor a.condition_settings a

unfoldable pub observe_all : List Surroundings → Autostart → Autostart
unfolding observe
observe_all [] a = a
observe_all (out ∷ r) a = observe_all r (observe out a)
