-- ===== src/Examples/Edits.antt =====
-- Files of the preferences dialog, capplet/gsp-app.c, at concrete values.
use mate_session_manager.Base.{◌≡◌, refl, true, false, none, some, [], ◌∷◌, ◌==◌, if◌then◌else◌}
use mate_session_manager.Preferences.{KeyFile, Disk, World, App, read, save, queue_save, set_hidden}
use mate_session_manager.Preferences.Reload.{empty, load}
use mate_session_manager.Preferences.Edits.{hide, edit_all, Shows}
use mate_session_manager.Preferences.Saving.{edited_is_saved}

abbrev pub world : World
world = record { writes = true; is_blank = λ t. t == 0; bin_false = 99; mate = 98 }

abbrev pub file : KeyFile
file = record {
  hidden = false;
  name = 1;
  exec = 2;
  comment = 3;
  icon = 4;
  delay = 0;
  only_show_in = some (98 ∷ []);
  not_show_in = none;
}

-- The file is in the second system directory.
abbrev disk : Disk
disk = record { user_file = none; system_files = λ p. if p == 2 then some file else none }

abbrev hidden : App
hidden = edit_all (hide true ∷ []) (load world file 2 empty)

waits : hidden.pending ≡ true
unfolding edit_all set_hidden queue_save
waits = refl

edited_is_saved_example :
    let (e, c) = save world disk hidden in
    (j : KeyFile) × (read e c.path ≡ some j) × Shows hidden j × Shows c j
edited_is_saved_example = edited_is_saved world disk file 2 (hide true ∷ []) refl refl refl waits
