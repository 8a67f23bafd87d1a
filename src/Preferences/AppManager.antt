-- ===== src/Preferences/AppManager.antt =====
-- capplet/gsp-app-manager.c: the applications that the preferences dialog shows, as they are read from the
-- directories of autostart files and as the files there change. A directory and the name of a
-- file are numbers; an application is kept with the name of its file.
pub mod Deleting
pub mod Searching
pub mod Filling
pub mod Listings
pub mod Filled
use mate_session_manager.Base.{
  ℕ, suc, zero, ◌+◌, ◌-◌, ◌^◌, Bool, true, false, not, ◌&&◌, ◌||◌, Option, none, some, List, [],
  ◌∷◌, if◌then◌else◌, ◌==◌, ltb, leb, is_some, is_nil,
}
use mate_session_manager.Preferences.{KeyFile, World, App}
use mate_session_manager.Preferences.Reload.{
  Outcome, ignored, reloaded, aborted, reload, load, empty, can_launch, lowest,
}

-- The files: which names end in ".desktop", which directories have names that begin with the user's
-- configuration directory, what a file of a directory holds, where it can be loaded, and the names
-- in a directory, where it can be opened.
pub record Files : Type 0 where
  pub is_desktop : ℕ → Bool
  pub is_in_config : ℕ → Bool
  pub read : ℕ → ℕ → Option KeyFile
  pub names : ℕ → Option (List ℕ)

pub data Signal : Type 0 where
  added removed : ℕ → Signal

-- `GspAppManagerPrivate`, with the signals, the latest first. A directory is kept with its index.
pub record AppManager : Type 0 where
  pub apps : List (ℕ × App)
  pub dirs : List (ℕ × ℕ)
  pub signals : List Signal

-- A call returns, or an assertion of it fails.
pub data Result : Type 0 where
  returned : AppManager → Result
  failed : Result

-- `gsp_app_manager_find_app_with_basename`.
unfoldable pub find_app : ℕ → List (ℕ × App) → Option App
find_app name [] = none
find_app name ((n, a) ∷ l) = if name == n then some a else find_app name l

-- The application of a name is changed where it is.
abbrev pub put_app : ℕ → App → List (ℕ × App) → List (ℕ × App)
put_app name a [] = []
put_app name a ((n, b) ∷ l) = if name == n then (n, a) ∷ l else (n, b) ∷ put_app name a l

abbrev drop_app : ℕ → List (ℕ × App) → List (ℕ × App)
drop_app name [] = []
drop_app name ((n, b) ∷ l) = if name == n then l else (n, b) ∷ drop_app name l

-- `none` is -1.
unfoldable pub get_dir_index : ℕ → List (ℕ × ℕ) → Option ℕ
get_dir_index dir [] = none
get_dir_index dir ((d, i) ∷ l) = if dir == d then some i else get_dir_index dir l

unfoldable pub get_dir : ℕ → List (ℕ × ℕ) → Option ℕ
get_dir index [] = none
get_dir index ((d, i) ∷ l) = if index == i then some d else get_dir index l

-- The loop of `_gsp_app_manager_find_dir_with_basename`, with `result`; `none` is -1.
unfoldable pub find_dir_from : Files → ℕ → ℕ → Option ℕ → List (ℕ × ℕ) → Option ℕ
find_dir_from f name minimum result [] = result
find_dir_from f name minimum result ((d, i) ∷ l) =
    find_dir_from f name minimum
      (if leb i minimum
        then result
        else if not (is_some (f.read d name))
        then result
        else lowest i result)
      l

unfoldable pub find_dir_with_basename : Files → ℕ → ℕ → List (ℕ × ℕ) → Option ℕ
unfolding find_dir_from
find_dir_with_basename f name minimum dirs = find_dir_from f name minimum none dirs

-- `_gsp_app_manager_app_removed`.
unfoldable pub app_removed : ℕ → AppManager → AppManager
app_removed name m = record m { apps = drop_app name m.apps; signals = removed name ∷ m.signals }

-- `gsp_app_manager_add`.
unfoldable pub add : ℕ → App → AppManager → AppManager
add name a m = record m { apps = (name, a) ∷ m.apps; signals = added name ∷ m.signals }

-- What `gsp_app_new` does to an application that is known.
abbrev pub take_outcome : ℕ → AppManager → Outcome → Result
take_outcome name m (ignored a) = returned (record m { apps = put_app name a m.apps })
take_outcome name m (reloaded a) = returned (record m { apps = put_app name a m.apps })
take_outcome name m aborted = failed

-- `gsp_app_reload_at`, for the file of a directory.
unfoldable pub reload_at : World → Files → ℕ → ℕ → ℕ → App → AppManager → Result
unfolding reload
reload_at w f dir name position a m =
    take_outcome name m
      (reload w (f.read dir name) position (record a { xdg_position = 2 ^ 32 - 1 }))

-- The comparisons of `_gsp_app_manager_handle_delete` with the position in the system, where `none` is
-- G_MAXUINT.
abbrev pub before : Option ℕ → ℕ → Bool
before none index = false
before (some p) index = ltb p index

abbrev pub is_at : Option ℕ → ℕ → Bool
is_at none index = false
is_at (some p) index = p == index

abbrev pub reload_from_dir : World → Files → ℕ → ℕ → App → AppManager → Option ℕ → Result
reload_from_dir w f name position a m none = returned (app_removed name m)
reload_from_dir w f name position a m (some dir) = reload_at w f dir name position a m

-- The position of the user's file is deleted, and there is a system position.
abbrev pub go_to_system : World → Files → ℕ → App → AppManager → Option ℕ → Result
go_to_system w f name a m none = failed
go_to_system w f name a m (some p) = reload_from_dir w f name p a m (get_dir p m.dirs)

-- `_gsp_app_manager_handle_delete`. (In the last test the position in the system is not G_MAXUINT.)
unfoldable pub handle_delete : World → Files → ℕ → ℕ → App → AppManager → Result
unfolding find_dir_with_basename app_removed get_dir reload_at
handle_delete w f name index a m =
    if before a.xdg_system_position index
    then returned m
    else if ltb index a.xdg_position
    then (if index == 0 then returned m else failed)
    else if (a.xdg_position == index)
        && (is_at a.xdg_system_position index || not (is_some a.xdg_system_position))
    then returned (app_removed name m)
    else if is_at a.xdg_system_position index
    then returned (record m {
      apps =
          put_app name
            (record a { xdg_system_position = find_dir_with_basename f name index m.dirs }) m.apps;
    })
    else if a.xdg_position == index
    then go_to_system w f name a m a.xdg_system_position
    else failed

-- What `gsp_app_new` makes of the file of a name that is not known.
unfoldable pub new_app : World → ℕ → Option KeyFile → Option App
unfolding can_launch
new_app w index none = none
new_app w index (some k) = if can_launch w k then some (load w k index empty) else none

abbrev pub add_new : ℕ → AppManager → Option App → AppManager
add_new name m none = m
add_new name m (some a) = add name a m

-- A file is new or changed.
abbrev pub changed : World → Files → ℕ → ℕ → ℕ → AppManager → Option App → Result
changed w f dir index name m none = returned (add_new name m (new_app w index (f.read dir name)))
changed w f dir index name m (some a) = take_outcome name m (reload w (f.read dir name) index a)

abbrev pub deleted : World → Files → ℕ → ℕ → AppManager → Option App → Result
deleted w f index name m none = returned m
deleted w f index name m (some a) = handle_delete w f name index a m

pub data MonitorEvent : Type 0 where
  file_changed file_created file_deleted other_event : MonitorEvent

abbrev pub monitored : World → Files → MonitorEvent → ℕ → ℕ → AppManager → Option ℕ → Result
monitored w f e dir name m none = returned m
monitored w f file_changed dir name m (some i) = changed w f dir i name m (find_app name m.apps)
monitored w f file_created dir name m (some i) = changed w f dir i name m (find_app name m.apps)
monitored w f file_deleted dir name m (some i) = deleted w f i name m (find_app name m.apps)
monitored w f other_event dir name m (some i) = returned m

unfoldable pub xdg_dir_monitor : World → Files → MonitorEvent → ℕ → ℕ → AppManager → Result
unfolding get_dir_index find_app new_app reload add handle_delete
xdg_dir_monitor w f e dir name m =
    if not (f.is_desktop name)
    then returned m
    else monitored w f e dir name m (get_dir_index dir m.dirs)

-- A file that is read when the dialog starts. An application that was read again would be added again.
abbrev pub fill_known : ℕ → AppManager → Outcome → Result
fill_known name m (ignored a) = returned (record m { apps = put_app name a m.apps })
fill_known name m (reloaded a) = returned (add name a (record m { apps = put_app name a m.apps }))
fill_known name m aborted = failed

abbrev pub fill_by : World → Files → ℕ → ℕ → ℕ → AppManager → Option App → Result
fill_by w f dir i name m none = returned (add_new name m (new_app w i (f.read dir name)))
fill_by w f dir i name m (some a) = fill_known name m (reload w (f.read dir name) i a)

unfoldable pub fill_name : World → Files → ℕ → ℕ → ℕ → AppManager → Result
unfolding new_app reload find_app add
fill_name w f dir i name m =
    if not (f.is_desktop name) then returned m else fill_by w f dir i name m (find_app name m.apps)

abbrev pub and_then : Result → (AppManager → Result) → Result
and_then (returned m) k = k m
and_then failed k = failed

-- The loop of `_gsp_app_manager_fill_from_dir`.
unfoldable pub fill_names : World → Files → ℕ → ℕ → List ℕ → AppManager → Result
unfolding fill_name
fill_names w f dir i [] m = returned m
fill_names w f dir i (name ∷ l) m = and_then (fill_name w f dir i name m) (fill_names w f dir i l)

abbrev pub fill_listed : World → Files → ℕ → ℕ → AppManager → Option (List ℕ) → Result
fill_listed w f dir i m none = returned m
fill_listed w f dir i m (some l) = fill_names w f dir i l m

unfoldable pub fill_from_dir : World → Files → ℕ → ℕ → AppManager → Result
unfolding fill_names
fill_from_dir w f dir i m = fill_listed w f dir i m (f.names dir)

-- The loop of `gsp_app_manager_fill`, from an index on. A directory that was met before is skipped.
unfoldable pub fill_dirs : World → Files → ℕ → List ℕ → AppManager → Result
unfolding get_dir_index fill_from_dir
fill_dirs w f i [] m = returned m
fill_dirs w f i (dir ∷ l) m =
    and_then
      (if is_some (get_dir_index dir m.dirs)
        then returned m
        else fill_from_dir w f dir i (record m { dirs = (dir, i) ∷ m.dirs }))
      (fill_dirs w f (suc i) l)

-- `g_str_has_prefix (autostart_dirs[0], g_get_user_config_dir ())`, which is FALSE for NULL.
abbrev pub is_user_first : Files → List ℕ → Bool
is_user_first f [] = false
is_user_first f (dir ∷ _) = f.is_in_config dir

-- `gsp_app_manager_fill`, with what `gsm_util_get_autostart_dirs` gives.
unfoldable pub fill : World → Files → List ℕ → AppManager → Result
unfolding fill_dirs
fill w f dirs m =
    if not (is_nil m.apps)
    then returned m
    else if not (is_user_first f dirs)
    then failed
    else fill_dirs w f 0 dirs m
