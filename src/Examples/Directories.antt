-- ===== src/Examples/Directories.antt =====
-- The directories of the preferences dialog, capplet/gsp-app-manager.c, at concrete values.
use mate_session_manager.Base.{
  ◌≡◌, refl, ◌↔◌, true, false, none, some, [], ◌∷◌, ◌==◌, if◌then◌else◌, arith,
}
use mate_session_manager.Preferences.{App}
use mate_session_manager.Preferences.Reload.{load, empty}
use mate_session_manager.Preferences.AppManager.{
  Files, AppManager, returned, failed, find_app, fill, handle_delete, xdg_dir_monitor, file_deleted,
  get_dir, get_dir_index, is_user_first,
}
use mate_session_manager.Preferences.AppManager.Deleting.{
  handle_delete_fails_iff, second_deletion_aborts, fails_at,
}
use mate_session_manager.Preferences.AppManager.Filled.{fill_lem, empty_manager, expected}
use mate_session_manager.Examples.Edits.{world, file}

-- The user's directory is 10, and one of the system 20; both list the file 5, and that of the system
-- cannot be loaded.
abbrev files : Files
files = record {
  is_desktop = λ n. n == 5;
  is_in_config = λ d. d == 10;
  read = λ d n. if d == 10 then some file else none;
  names = λ d. some (5 ∷ 6 ∷ []);
}

fill_lem_example :
    (is_user_first files (10 ∷ 20 ∷ 10 ∷ []) ≡ false
      → fill world files (10 ∷ 20 ∷ 10 ∷ []) empty_manager ≡ failed)
    × (is_user_first files (10 ∷ 20 ∷ 10 ∷ []) ≡ true
        → (n : AppManager) × (fill world files (10 ∷ 20 ∷ 10 ∷ []) empty_manager ≡ returned n)
          × (find_app 5 n.apps ≡ expected world files 5 0 [] (10 ∷ 20 ∷ 10 ∷ []) none))
fill_lem_example = fill_lem world files (10 ∷ 20 ∷ 10 ∷ []) 5 (λ d. refl)

abbrev app : App
app = record (load world file 0 empty) { xdg_system_position = some 1 }

abbrev shown : AppManager
shown = record { apps = (5, app) ∷ []; dirs = (20, 1) ∷ (10, 0) ∷ []; signals = [] }

handle_delete_fails_iff_example :
    (handle_delete world files 5 0 app shown ≡ failed) ↔ (fails_at 0 0 (some 1) ≡ true)
handle_delete_fails_iff_example = handle_delete_fails_iff world files 5 0 app shown

second_deletion_aborts_example :
    (n : AppManager) × (xdg_dir_monitor world files file_deleted 10 5 shown ≡ returned n)
    × (xdg_dir_monitor world files file_deleted 20 5 n ≡ failed)
unfolding find_app get_dir_index get_dir
second_deletion_aborts_example =
    second_deletion_aborts world files 5 10 0 20 app shown refl refl refl refl (omega arith) refl
      refl refl refl
