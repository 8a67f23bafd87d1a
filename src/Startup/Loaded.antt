-- ===== src/Startup/Loaded.antt =====
-- What holds of the applications once a session has begun (mate-session/main.c).
use mate_session_manager.Base.{
  Bool, true, false, Option, none, some, List, [], ◌∷◌, String, if◌then◌else◌, is_string_empty,
}
use mate_session_manager.Util.{get_autostart_dirs, find_desktop_file_for_app_name}
use mate_session_manager.Manager.Types.{Manager}
use mate_session_manager.Manager.Apps.{add_autostart_apps_from_dir}
use mate_session_manager.Manager.Apps.Apart.{
  AreApart, add_autostart_app-AreApart, autostart_dir-AreApart,
}
use mate_session_manager.Startup.{
  Outside, Settings, add_found, append_default_apps, add_provider, append_each,
  append_required_apps, add_tool, append_accessibility_apps, is_login,
  maybe_load_saved_session_apps, load_override_apps, load_standard_apps,
}

abbrev pub Apart : Manager → Type 0
Apart m = AreApart m.apps.objects

either_way : (b : Bool) (m n : Manager) → Apart m → Apart n → Apart (if b then m else n)
either_way true m n h k = h
either_way false m n h k = k

add_found-Apart :
    (o : Outside) (service path : Option String) (m : Manager)
    → Apart m
    → Apart (add_found o service path m)
add_found-Apart o service none m h = h
add_found-Apart o service (some path) m h = add_autostart_app-AreApart o.files path service m h

append_default_apps-Apart :
    (o : Outside) (dirs names : List String) (m : Manager)
    → Apart m
    → Apart (append_default_apps o dirs names m)
unfolding append_default_apps
append_default_apps-Apart o dirs [] m h = h
append_default_apps-Apart o dirs (name ∷ l) m h =
    let path = find_desktop_file_for_app_name o.environment o.search name (some dirs) in
    let n = add_found o none path m in
    append_default_apps-Apart o dirs l (if is_string_empty (some name) then m else n)
      (either_way (is_string_empty (some name)) m n h (add_found-Apart o none path m h))

add_provider-Apart :
    (o : Outside) (component : String) (provider : Option String) (m : Manager)
    → Apart m
    → Apart (add_provider o component provider m)
add_provider-Apart o component none m h = h
add_provider-Apart o component (some p) m h =
    add_found-Apart o (some component)
      (find_desktop_file_for_app_name o.environment o.search p none) m h

append_each-Apart :
    (o : Outside) (provider : String → Option String) (l : List String) (m : Manager)
    → Apart m
    → Apart (append_each o provider l m)
append_each-Apart o provider [] m h = h
append_each-Apart o provider (component ∷ l) m h =
    let n = add_provider o component (provider component) m in
    append_each-Apart o provider l (if is_string_empty (some component) then m else n) (
      either_way (is_string_empty (some component)) m n h
        (add_provider-Apart o component (provider component) m h))

required-Apart :
    (o : Outside) (s : Settings) (m : Manager) → Apart m → Apart (append_required_apps o s m)
unfolding append_required_apps
required-Apart o s m h =
    elim s.required_components
      as (λ (x : Option (List String)).
        Apart (elim x [ none ↦ m | some l ↦ append_each o s.provider l m ])) [
          | none ↦ h
          | some l ↦ append_each-Apart o s.provider l m h
        ]

add_tool-Apart :
    (o : Outside) (startup : Bool) (exec : Option String) (m : Manager)
    → Apart m
    → Apart (add_tool o startup exec m)
add_tool-Apart o startup none m h = h
add_tool-Apart o false (some exec) m h = h
add_tool-Apart o true (some exec) m h =
    let path = find_desktop_file_for_app_name o.environment o.search exec none in
    either_way (is_string_empty (some exec)) m (add_found o none path m) h
      (add_found-Apart o none path m h)

saved-Apart :
    (o : Outside) (s : Settings) (m : Manager)
    → Apart m
    → Apart (maybe_load_saved_session_apps o s m)
unfolding maybe_load_saved_session_apps
saved-Apart o s m h =
    let n = (add_autostart_apps_from_dir o.files o.saved_session_dir m).0 in
    either_way (is_login o) m (if s.autosave then n else m) h
      (either_way s.autosave n m (autostart_dir-AreApart o.files o.saved_session_dir m h) h)

pub load_override_apps-Apart :
    (o : Outside) (dirs : List String) (m : Manager) → Apart m → Apart (load_override_apps o dirs m)
unfolding load_override_apps
load_override_apps-Apart o [] m h = h
load_override_apps-Apart o (dir ∷ l) m h =
    load_override_apps-Apart o l (add_autostart_apps_from_dir o.files dir m).0
      (autostart_dir-AreApart o.files dir m h)

-- Whatever the settings, the files and the services say, in failsafe mode or not: if each application of
-- the store has an application id that no other has, this is still so when the saved session, the
-- autostart directories, the default and the required applications and the accessibility tools
-- have been added.
pub startup-Apart :
    (o : Outside) (s : Settings) (failsafe : Bool) (m : Manager)
    → Apart m
    → Apart (load_standard_apps o s failsafe m)
unfolding load_standard_apps append_accessibility_apps
startup-Apart o s failsafe m h =
    let dirs = get_autostart_dirs o.environment in
    let saved = maybe_load_saved_session_apps o s m in
    let read = if failsafe then m else load_override_apps o dirs saved in
    let apps = append_required_apps o s (append_default_apps o dirs s.default_apps read) in
    let apart = required-Apart o s (append_default_apps o dirs s.default_apps read) (
      append_default_apps-Apart o dirs s.default_apps read (
        either_way failsafe m (load_override_apps o dirs saved) h
          (load_override_apps-Apart o dirs saved (saved-Apart o s m h)))) in
    add_tool-Apart o s.visual_startup s.visual (add_tool o s.mobility_startup s.mobility apps)
      (add_tool-Apart o s.mobility_startup s.mobility apps apart)
