-- ===== src/Examples/Saves.antt =====
-- Saved sessions of mate-session/gsm-session-save.c, commands of mate-session/gsm-xsmp-client.c and
-- directories of mate-session/gsm-util.c at concrete values.
use mate_session_manager.Base.{
  ◌≡◌, refl, true, false, none, some, List, [], ◌∷◌, ◌++◌, contains, null, freed,
}
use mate_session_manager.SessionSave.{
  Client, saved_as, not_saved, save_failed, System, Disk, gsm_session_save,
}
use mate_session_manager.SessionSave.Failure.{files_in, failed_save_keeps_session}
use mate_session_manager.SessionSave.Files.{files_of}
use mate_session_manager.SessionSave.Success.{saved_session_replaced}
use mate_session_manager.Xsmp.Command.{prop_to_command}
use mate_session_manager.Xsmp.Command.Quoting.{words, words-prop_to_command}
use mate_session_manager.Util.{
  Environment, and_then, get_desktop_dirs, get_app_dirs, get_autostart_dirs, read_vector,
}
use mate_session_manager.Util.Dirs.{get_desktop_dirs_lem}

abbrev system : System
system = record { mkdir = true; write = λ n. none; unlink = λ n. true; parse = λ n. true }

-- Two clients that save themselves, one of them with the discard command 7, and one that does not.
abbrev clients : List Client
clients =
    record { file_name = 1; save = saved_as (record { contents = 10; discard = some 7 }) }
    ∷ record { file_name = 2; save = not_saved }
    ∷ record { file_name = 3; save = saved_as (record { contents = 30; discard = none }) }
    ∷ []

-- What was saved before has the discard commands 7 and 8.
abbrev disk : Disk
disk = record {
  saved = some (
      record { name = 1; key_file = some (record { contents = 11; discard = some 7 }) }
      ∷ record { name = 4; key_file = some (record { contents = 40; discard = some 8 }) }
      ∷ []);
  tmp = none;
  saved_session_dir = false;
}

saved_session_replaced_example :
    let o = gsm_session_save system clients disk in
    (o.disk.saved ≡ some (files_of clients))
    × (o.disk.tmp ≡ none)
    × (o.error ≡ null)
    × (o.reads_freed ≡ false)
    × (contains 8 o.spawned ≡ true)
saved_session_replaced_example =
    saved_session_replaced system clients disk 8 refl (λ n. refl) refl refl

-- The second client fails.
abbrev failing : List Client
failing =
    record { file_name = 1; save = saved_as (record { contents = 10; discard = some 7 }) }
    ∷ record { file_name = 2; save = save_failed 5 }
    ∷ []

failed_save_keeps_session_example :
    let o = gsm_session_save system failing disk in
    (files_in o.disk.saved ≡ files_in disk.saved)
    × (o.disk.tmp ≡ none)
    × (o.error ≡ freed)
    × (o.reads_freed ≡ true)
failed_save_keeps_session_example =
    failed_save_keeps_session system failing disk refl (λ n. refl) refl

-- The words `ls` and `a b`.
words-prop_to_command_example :
    words (prop_to_command ((108 ∷ 115 ∷ []) ∷ (97 ∷ 32 ∷ 98 ∷ []) ∷ []))
    ≡ some ((108 ∷ 115 ∷ []) ∷ (97 ∷ 32 ∷ 98 ∷ []) ∷ [])
words-prop_to_command_example =
    words-prop_to_command ((108 ∷ 115 ∷ []) ∷ (97 ∷ 32 ∷ 98 ∷ []) ∷ []) refl
      ((refl, refl, refl), ((refl, refl, refl), tt))

abbrev pub environment : Environment
environment = record {
  build_filename = λ a b. a;
  user_data_dir = "/home/a/.local/share";
  user_config_dir = "/home/a/.config";
  system_data_dirs = "/usr/share" ∷ [];
  system_config_dirs = "/etc/xdg" ∷ [];
}

get_desktop_dirs_lem_example :
    and_then (get_desktop_dirs environment (some "/home/a/saved")) read_vector
    ≡ some ((get_app_dirs environment ++ get_autostart_dirs environment) ++ ("/home/a/saved" ∷ []))
get_desktop_dirs_lem_example = get_desktop_dirs_lem environment (some "/home/a/saved")
