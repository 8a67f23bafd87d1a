-- ===== src/Autostart/Conditions/Reading.antt =====
-- A look at the condition of an application that was loaded (mate-session/gsm-autostart-app.c).
use mathlib.Core.Path.{subst}
use mate_session_manager.Base.{
  ℕ, ◌≡◌, ◌≢◌, ◌⊎◌, inl, inr, refl, sym, Bool, true, false, Option, none, some, List, String, arith,
}
use mate_session_manager.Autostart.{
  ConditionKind, if_exists, unless_exists, mate, gsettings, unknown, Surroundings, Autostart,
  DesktopFile, is_disabled, load_from, new,
}
use mate_session_manager.Autostart.Parse.{parse_condition_string}
use mate_session_manager.Autostart.Conditions.{
  split_key, setup_gsettings_condition_monitor, monitor_for, setup_condition_monitor, setup_for,
  setting_off, parsed_disabled, is_conditionally_disabled, conditionally_disabled_by, remembered,
  watch_parsed,
}

-- The settings are those that the key names, or none.
abbrev pub SettingsFit : List ℕ → Option (List ℕ × List ℕ) → Type 0
SettingsFit text none = Unit {0}
SettingsFit text (some (schema, key)) = split_key text ≡ (some schema, some key)

-- A file monitor and settings, as they are kept.
abbrev pub Monitor : Type 0
Monitor = Option (ConditionKind × List ℕ)

abbrev pub Settings : Type 0
Settings = Option (List ℕ × List ℕ)

-- What listens fits the condition.
abbrev pub Fits : ConditionKind × Option (List ℕ) → Monitor → Settings → Type 0
Fits (if_exists, some key) m s = m ≡ some (if_exists, key)
Fits (unless_exists, some key) m s = m ≡ some (unless_exists, key)
Fits (mate, some key) m s = (m ≡ none) × SettingsFit key s
Fits (gsettings, some key) m s = (m ≡ none) × SettingsFit key s
Fits (unknown, some key) m s = (m ≡ none) × (s ≡ none)
Fits (kind, none) m s = Unit {0}

-- What listens to the condition of an application: no settings if the application is disabled.
abbrev pub Listens : Option (List ℕ) → Bool → Monitor → Settings → Type 0
Listens none disabled m s = Unit {0}
Listens (some t) false m s = Fits (parse_condition_string t) m s
Listens (some t) true m s = s ≡ none

gsettings-Fits :
    (out : Surroundings) (key : List ℕ) (a : Autostart)
    → a.condition_monitor ≡ none
    → a.condition_settings ≡ none
    → let b = setup_gsettings_condition_monitor out key a in
      (b.condition_monitor ≡ none) × SettingsFit key b.condition_settings
unfolding setup_gsettings_condition_monitor
gsettings-Fits out key a m s = ground arith

watch_parsed-Fits :
    (out : Surroundings) (p : ConditionKind × Option (List ℕ)) (a : Autostart)
    → a.condition_monitor ≡ none
    → a.condition_settings ≡ none
    → let b = watch_parsed out p a in Fits p b.condition_monitor b.condition_settings
unfolding monitor_for
watch_parsed-Fits out (kind, none) a m s = tt
watch_parsed-Fits out (if_exists, some key) a m s = refl
watch_parsed-Fits out (unless_exists, some key) a m s = refl
watch_parsed-Fits out (mate, some key) a m s = gsettings-Fits out key a m s
watch_parsed-Fits out (gsettings, some key) a m s = gsettings-Fits out key a m s
watch_parsed-Fits out (unknown, some key) a m s = (m, s)

setup_for-Listens :
    (out : Surroundings) (o : Option (List ℕ)) (disabled : Bool) (a : Autostart)
    → a.condition_monitor ≡ none
    → a.condition_settings ≡ none
    → let b = setup_for out o disabled a in
      Listens o disabled b.condition_monitor b.condition_settings
unfolding setup_for
setup_for-Listens out none disabled a m s = tt
setup_for-Listens out (some t) true a m s = s
setup_for-Listens out (some t) false a m s = watch_parsed-Fits out (parse_condition_string t) a m s

-- The condition itself is not touched.
watch_parsed-string :
    (out : Surroundings) (p : ConditionKind × Option (List ℕ)) (a : Autostart)
    → (watch_parsed out p a).condition_string ≡ a.condition_string
unfolding monitor_for setup_gsettings_condition_monitor
watch_parsed-string out (kind, none) a = refl
watch_parsed-string out (if_exists, some key) a = refl
watch_parsed-string out (unless_exists, some key) a = refl
watch_parsed-string out (mate, some key) a = ground arith
watch_parsed-string out (gsettings, some key) a = ground arith
watch_parsed-string out (unknown, some key) a = refl

setup_for-string :
    (out : Surroundings) (o : Option (List ℕ)) (disabled : Bool) (a : Autostart)
    → (setup_for out o disabled a).condition_string ≡ a.condition_string
unfolding setup_for
setup_for-string out none disabled a = refl
setup_for-string out (some t) true a = refl
setup_for-string out (some t) false a = watch_parsed-string out (parse_condition_string t) a

-- With something that listens, or with no settings, a look at the condition finds all it needs.
pub parsed_disabled_total :
    (out : Surroundings) (p : ConditionKind × Option (List ℕ)) (m : Monitor) (s : Settings)
    → Fits p m s ⊎ (s ≡ none)
    → parsed_disabled out s p ≢ none
unfolding parsed_disabled setting_off
parsed_disabled_total out (kind, none) m s f = λ e. cc
parsed_disabled_total out (if_exists, some key) m s f = λ e. cc
parsed_disabled_total out (unless_exists, some key) m s f = λ e. cc
parsed_disabled_total out (mate, some key) m s f = ground arith
parsed_disabled_total out (gsettings, some key) m s f = ground arith
parsed_disabled_total out (unknown, some key) m s f = λ e. cc

remembered_total :
    (key : Option (List ℕ)) (o : Option Bool) (a : Autostart) → o ≢ none → remembered key o a ≢ none
remembered_total key none a h = λ e. h refl
remembered_total key (some b) a h = λ e. cc

read_total :
    (out : Surroundings) (o : Option (List ℕ)) (disabled : Bool) (a : Autostart)
    → Listens o disabled a.condition_monitor a.condition_settings
    → conditionally_disabled_by out o a ≢ none
unfolding conditionally_disabled_by
read_total out none d a l = λ e. cc
read_total out (some t) false a l = remembered_total _ _ a (
    parsed_disabled_total out (parse_condition_string t) a.condition_monitor a.condition_settings
      (inl l))
read_total out (some t) true a l = remembered_total _ _ a (
    parsed_disabled_total out (parse_condition_string t) a.condition_monitor a.condition_settings
      (inr l))

-- An application from a desktop file, as the constructor leaves it.
abbrev pub loaded : Surroundings → String → DesktopFile → Autostart
loaded before fresh f = load_from (setup_condition_monitor before) fresh f (new (some f))

pub loaded-string :
    (before : Surroundings) (fresh : String) (f : DesktopFile)
    → (loaded before fresh f).condition_string ≡ f.condition
unfolding load_from setup_condition_monitor
loaded-string before fresh f = setup_for-string before f.condition _ _

pub loaded-Listens :
    (before : Surroundings) (fresh : String) (f : DesktopFile)
    → let a = loaded before fresh f in
      Listens f.condition (is_disabled (new (some f))) a.condition_monitor a.condition_settings
unfolding load_from setup_condition_monitor is_disabled
loaded-Listens before fresh f = setup_for-Listens before f.condition _ _ refl refl

-- An application that was loaded, from any file and in any surroundings, is looked at without a
-- fault in any other surroundings: no settings are read under a key that is not there.
pub loaded_condition_is_read :
    (before now : Surroundings) (fresh : String) (f : DesktopFile)
    → is_conditionally_disabled now (loaded before fresh f) ≢ none
unfolding is_conditionally_disabled
loaded_condition_is_read before now fresh f =
    subst (λ (o : Option (List ℕ)). conditionally_disabled_by now o (loaded before fresh f) ≢ none)
      (sym (loaded-string before fresh f))
      (read_total now f.condition _ _ (loaded-Listens before fresh f))
