-- ===== src/Preferences.antt =====
-- capplet/gsp-app.c: an autostart file as the preferences dialog edits it. A text is a number, and NULL
-- and the empty text, which the code takes for equal, are 0. Of the directories only the
-- files with the application's own name matter.
pub mod Edits
pub mod Reload
pub mod Saving
pub mod Creating
pub mod AppManager
use mate_session_manager.Base.{
  bool_eq, ◌-◌, ◌^◌, ℕ, Bool, true, false, not, ◌&&◌, ◌||◌, Option, none, some, List, [], ◌∷◌,
  if◌then◌else◌, ◌==◌, ltb, is_some, contains,
}

-- The keys of a file that the dialog reads.
pub record KeyFile : Type 0 where
  pub hidden : Bool
  pub name : ℕ
  pub exec : ℕ
  pub comment : ℕ
  pub icon : ℕ
  pub delay : ℕ
  pub only_show_in : Option (List ℕ)
  pub not_show_in : Option (List ℕ)

-- A file is in the user's directory, or in the system directory of a position.
pub data FilePath : Type 0 where
  user : FilePath
  system : ℕ → FilePath

pub record Disk : Type 0 where
  pub user_file : Option KeyFile
  pub system_files : ℕ → Option KeyFile

-- What the system lets happen: whether a file is written; and of the texts that numbers stand for,
-- which are blank, and which are `/bin/false` and `MATE`.
pub record World : Type 0 where
  pub writes : Bool
  pub is_blank : ℕ → Bool
  pub bin_false : ℕ
  pub mate : ℕ

-- `GspAppPrivate`. The bits of `save_mask` are apart; `none` is G_MAXUINT; `save_timeout` is whether the
-- field is not 0, and `pending` whether there is a source.
pub record App : Type 0 where
  pub path : FilePath
  pub hidden : Bool
  pub name : ℕ
  pub exec : ℕ
  pub comment : ℕ
  pub icon : ℕ
  pub delay : ℕ
  pub xdg_position : ℕ
  pub xdg_system_position : Option ℕ
  pub save_timeout : Bool
  pub pending : Bool
  pub save_hidden : Bool
  pub save_name : Bool
  pub save_exec : Bool
  pub save_comment : Bool
  pub save_delay : Bool
  pub old_system_path : Option FilePath
  pub skip_next_monitor_event : Bool

abbrev pub read : Disk → FilePath → Option KeyFile
read d user = d.user_file
read d (system p) = d.system_files p

abbrev pub path_at : ℕ → FilePath
path_at p = if p == 0 then user else system p

-- `_gsp_app_user_equal_system`, for the file of the first system directory.
unfoldable pub equal_system : Option KeyFile → App → Bool
equal_system none a = false
equal_system (some k) a =
    bool_eq k.hidden a.hidden
    && ((k.name == a.name)
        && ((k.comment == a.comment)
            && ((k.exec == a.exec) && ((k.icon == a.icon) && (k.delay == a.delay)))))

-- `_gsp_app_save_done_success`.
abbrev pub save_done : App → App
save_done a = record a {
  save_hidden = false;
  save_name = false;
  save_exec = false;
  save_comment = false;
  save_delay = false;
  old_system_path = none;
}

abbrev pub remove_file : FilePath → Disk → Disk
remove_file user d = record d { user_file = none }
remove_file (system p) d = record d {
  system_files = λ q. if q == p then none else d.system_files q;
}

abbrev pub write_file : FilePath → KeyFile → Disk → Disk
write_file user k d = record d { user_file = some k }
write_file (system p) k d = record d {
  system_files = λ q. if q == p then some k else d.system_files q;
}

-- `gsp_key_file_populate`, where the file cannot be loaded.
abbrev pub base_file : World → Option KeyFile → KeyFile
base_file w (some k) = k
base_file w none = record {
  hidden = false;
  name = 0;
  exec = w.bin_false;
  comment = 0;
  icon = 0;
  delay = 0;
  only_show_in = none;
  not_show_in = none;
}

abbrev pub base_path : Option FilePath → FilePath → FilePath
base_path none path = path
base_path (some old) path = old

-- The keys whose bits are set are written to the file.
unfoldable pub masked : App → KeyFile → KeyFile
masked a k = record k {
  hidden = if a.save_hidden then a.hidden else k.hidden;
  name = if a.save_name then a.name else k.name;
  exec = if a.save_exec then a.exec else k.exec;
  comment = if a.save_comment then a.comment else k.comment;
  delay = if a.save_delay then a.delay else k.delay;
}

-- The second half of `_gsp_app_save`: the file is written.
unfoldable pub save_file : World → Disk → App → Disk × App
unfolding masked
save_file w d a =
    if w.writes
    then (
      write_file a.path (masked a (base_file w (read d (base_path a.old_system_path a.path)))) d,
      record (save_done a) {
        skip_next_monitor_event = true;
        save_timeout = false;
        pending = false;
      },
    )
    else (d, record a { save_timeout = false; pending = false })

-- The first half: the file in the user's directory is not needed.
unfoldable pub use_system : ℕ → Disk → App → Disk × App
use_system p d a = (
  remove_file a.path d,
  record (save_done a) { path = system p; xdg_position = p; pending = false },
)

-- `_gsp_app_save`.
unfoldable pub save_by : World → Disk → Option ℕ → App → Disk × App
unfolding equal_system save_file use_system
save_by w d none a = save_file w d a
save_by w d (some p) a =
    if equal_system (d.system_files p) a then use_system p d a else save_file w d a

unfoldable pub save : World → Disk → App → Disk × App
unfolding save_by
save w d a = save_by w d a.xdg_system_position a

-- `_gsp_app_queue_save`: a file of the system is to be copied to the user's directory.
unfoldable pub queue_save : App → App
queue_save a =
    let b = if a.xdg_position == 0 then a else record a {
      xdg_position = 0;
      old_system_path = elim a.old_system_path [ none ↦ some a.path | some old ↦ some old ];
      path = user;
    } in
    record b { save_timeout = true; pending = true }

-- `gsp_app_set_hidden`.
unfoldable pub set_hidden : Bool → App → App
unfolding queue_save
set_hidden hidden a =
    if bool_eq hidden a.hidden
    then a
    else queue_save (record a { hidden = hidden; save_hidden = true })

-- `gsp_app_update`.
unfoldable pub update : ℕ → ℕ → ℕ → ℕ → App → App
unfolding queue_save
update name comment exec delay a =
    let b = record a {
      name = name;
      comment = comment;
      exec = exec;
      delay = delay;
      save_name = a.save_name || not (name == a.name);
      save_comment = a.save_comment || not (comment == a.comment);
      save_exec = a.save_exec || not (exec == a.exec);
      save_delay = a.save_delay || not (delay == a.delay);
    } in
    if (name == a.name) && ((comment == a.comment) && ((exec == a.exec) && (delay == a.delay)))
    then a
    else queue_save b

-- `gsp_app_delete`; whether "removed" is emitted.
unfoldable pub delete : Disk → App → Disk × App × Bool
unfolding queue_save
delete d a =
    if (a.xdg_position == 0) && not (is_some a.xdg_system_position)
    then (
      remove_file a.path d,
      record a { save_timeout = false; pending = false; hidden = true; save_hidden = true },
      true,
    )
    else (d, queue_save (record a { hidden = true; save_hidden = true }), false)
