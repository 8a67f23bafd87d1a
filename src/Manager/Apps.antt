-- ===== src/Manager/Apps.antt =====
-- The applications that the manager is to start (mate-session/gsm-manager.c, `append_app` and
-- `gsm_manager_add_autostart_app`). Desktop files and directories are outside (`Files`).
pub mod Apart
use mate_session_manager.Base.{
  ℕ, Bool, true, false, ◌||◌, Option, none, some, List, [], ◌∷◌, String, if◌then◌else◌, is_some,
  is_string_empty, nat_eq,
}
use mate_session_manager.Store
use mate_session_manager.Manager.Types.{Manager, App}
use mate_session_manager.Manager.Clients.{find_app_for_app_id}

-- What the files say: `gsm_autostart_app_new`, `gsm_app_provides`, the names in a directory, which
-- of them end in ".desktop", and `g_build_filename`.
pub record Files : Type 0 where
  pub load : String → Option App
  pub provides : String → App → Bool
  pub read_dir : String → Option (List String)
  pub is_desktop : String → Bool
  pub build_filename : String → String → String

abbrev pub is_duplicate : Option String → Manager → Bool
is_duplicate none m = false
is_duplicate (some app_id) m = is_some (find_app_for_app_id app_id m)

-- `append_app`. The identifier of an application, a path with a serial number, is never empty.
unfoldable pub append_app : App → Manager → Manager
append_app a m =
    if is_some (Store.lookup a.id m.apps)
    then m
    else if is_string_empty a.app_id
    then m
    else if is_duplicate a.app_id m
    then m
    else record m { apps = (Store.add a.id a m.apps).0 }

abbrev is_provided : Files → Option String → Manager → Bool
is_provided files none m = false
is_provided files (some service) m = is_some (Store.find (λ _ a. files.provides service a) m.apps)

-- `gsm_manager_add_autostart_app`, for a file that is to provide a service or not.
unfoldable pub add_autostart_app : Files → String → Option String → Manager → Manager × Bool
unfolding append_app
add_autostart_app files path service m =
    if is_provided files service m
    then (m, false)
    else elim (files.load path) [ none ↦ (m, false) | some a ↦ (append_app a m, true) ]

-- The loop over the names in a directory.
unfoldable pub add_each : Files → String → List String → Manager → Manager
unfolding add_autostart_app
add_each files path [] m = m
add_each files path (name ∷ r) m = add_each files path r (
    if files.is_desktop name
    then (add_autostart_app files (files.build_filename path name) none m).0
    else m)

-- `gsm_manager_add_autostart_apps_from_dir`.
unfoldable pub add_autostart_apps_from_dir : Files → String → Manager → Manager × Bool
unfolding add_each
add_autostart_apps_from_dir files path m = elim (files.read_dir path) [
  | none ↦ (m, false)
  | some names ↦ (add_each files path names m, true)
]
