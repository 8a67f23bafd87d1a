-- ===== src/Preferences/Reload.antt =====
-- A file is read, or read again after it changed on disk (capplet/gsp-app.c).
use mate_session_manager.Base.{
  ◌-◌, ◌^◌, ℕ, Bool, true, false, not, ◌&&◌, ◌||◌, Option, none, some, List, if◌then◌else◌, ◌==◌,
  ltb, contains,
}
use mate_session_manager.Preferences.{KeyFile, user, World, App, path_at}

-- `gsp_app_can_launch`.
abbrev shown_in : ℕ → Option (List ℕ) → Bool
shown_in desktop none = true
shown_in desktop (some l) = contains desktop l

abbrev hidden_in : ℕ → Option (List ℕ) → Bool
hidden_in desktop none = false
hidden_in desktop (some l) = contains desktop l

unfoldable pub can_launch : World → KeyFile → Bool
can_launch w k = shown_in w.mate k.only_show_in && not (hidden_in w.mate k.not_show_in)

-- The data of a file, as `gsp_app_new` takes them; a name that is blank is replaced by the command.
abbrev pub load : World → KeyFile → ℕ → App → App
load w k position a = record a {
  path = path_at position;
  hidden = k.hidden;
  name = if w.is_blank k.name then k.exec else k.name;
  exec = k.exec;
  comment = k.comment;
  icon = k.icon;
  delay = k.delay;
  xdg_position = position;
  xdg_system_position = if position == 0 then a.xdg_system_position else some position;
  save_timeout = false;
  old_system_path = none;
  skip_next_monitor_event = false;
}

-- An object as it is made, before a file is read into it.
abbrev pub empty : App
empty = record {
  path = user;
  hidden = false;
  name = 0;
  exec = 0;
  comment = 0;
  icon = 0;
  delay = 0;
  xdg_position = 2 ^ 32 - 1;
  xdg_system_position = none;
  save_timeout = false;
  pending = false;
  save_hidden = false;
  save_name = false;
  save_exec = false;
  save_comment = false;
  save_delay = false;
  old_system_path = none;
  skip_next_monitor_event = false;
}

-- What `gsp_app_new` does: the file is ignored, it is loaded, or an assertion fails.
pub data Outcome : Type 0 where
  ignored : App → Outcome
  reloaded : App → Outcome
  aborted : Outcome

abbrev pub lowest : ℕ → Option ℕ → Option ℕ
lowest p none = some p
lowest p (some q) = some (if ltb p q then p else q)

-- Whether the position of a system directory is above that of the first.
abbrev pub above : ℕ → Option ℕ → Bool
above p none = false
above p (some q) = ltb q p

unfoldable pub reload_from : World → Option KeyFile → ℕ → App → Outcome
unfolding can_launch
reload_from w none position a = ignored a
reload_from w (some k) position a =
    if not (can_launch w k)
    then ignored a
    else if above position a.xdg_system_position
    then aborted
    else reloaded (load w k position a)

-- `gsp_app_new` for an application that is known, with the file at the path that changed.
unfoldable pub reload : World → Option KeyFile → ℕ → App → Outcome
unfolding reload_from
reload w file position a =
    if (a.xdg_position == position) && a.skip_next_monitor_event
    then ignored (record a { skip_next_monitor_event = false })
    else if ltb a.xdg_position position || a.save_timeout
    then ignored (record a { xdg_system_position = lowest position a.xdg_system_position })
    else reload_from w file position a
