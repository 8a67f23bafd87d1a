-- ===== src/SessionSave.antt =====
-- mate-session/gsm-session-save.c, with the directories of mate-session/gsm-util.c: the session is
-- saved to a directory beside the old one, which it then takes the place of. Names, contents and
-- commands are numbers, as only their equality matters.
pub mod Files
pub mod Success
pub mod Failure
use mate_session_manager.Base.{
  ℕ, Bool, true, false, not, ◌&&◌, ◌||◌, Option, none, some, List, [], ◌∷◌, ◌++◌, if◌then◌else◌,
  ◌==◌, contains, keep, is_nil, is_some, ErrorRef, null, freed, live,
}

-- A key file, with its contents and its discard command.
pub record KeyFile : Type 0 where
  pub contents : ℕ
  pub discard : Option ℕ

-- A file of a directory; `none` cannot be loaded as a key file.
pub record File : Type 0 where
  pub name : ℕ
  pub key_file : Option KeyFile

-- What `gsm_client_save` gives: nothing, an error, or a key file.
pub data Saved : Type 0 where
  not_saved : Saved
  save_failed : ℕ → Saved
  saved_as : KeyFile → Saved

-- A client, with the name of the file that its startup id gives.
pub record Client : Type 0 where
  pub file_name : ℕ
  pub save : Saved

-- What the system lets happen: directories are made, files are written, or fail with an error, and are
-- unlinked, and commands are parsed.
pub record System : Type 0 where
  pub mkdir : Bool
  pub write : ℕ → Option ℕ
  pub unlink : ℕ → Bool
  pub parse : ℕ → Bool

-- `saved-session` and `saved-session.new`, if they are there, and whether the first was found before.
pub record Disk : Type 0 where
  pub saved : Option (List File)
  pub tmp : Option (List File)
  pub saved_session_dir : Bool

-- `ensure_dir_exists`: whether the directory is there, and what is in it then.
unfoldable pub ensure_dir_exists : System → Option (List File) → Option (List File)
ensure_dir_exists sys (some files) = some files
ensure_dir_exists sys none = if sys.mkdir then some [] else none

-- `gsm_util_get_saved_session_dir`: found once, the directory is not looked at again.
unfoldable pub get_saved_session_dir : System → Disk → Disk
unfolding ensure_dir_exists
get_saved_session_dir sys d =
    let dir = ensure_dir_exists sys d.saved in
    if d.saved_session_dir then d else record d { saved = dir; saved_session_dir = is_some dir }

abbrev pub emptied : System → Option (List File) → Option (List File)
emptied sys none = none
emptied sys (some files) = some (keep (λ (f : File). not (sys.unlink f.name)) files)

-- `gsm_util_get_empty_tmp_session_dir`: what is left is unlinked, where that can be done.
unfoldable pub get_empty_tmp_session_dir : System → Disk → Disk
unfolding ensure_dir_exists
get_empty_tmp_session_dir sys d = record d { tmp = emptied sys (ensure_dir_exists sys d.tmp) }

-- `g_file_set_contents`: a file of the same name is replaced.
abbrev pub write_file : ℕ → KeyFile → List File → List File
write_file name k files =
    keep (λ (f : File). not (f.name == name)) files
    ++ (record { name = name; key_file = some k } ∷ [])

-- `SessionSaveData`.
pub record SaveData : Type 0 where
  pub dir : List File
  pub discards : List ℕ
  pub error : ErrorRef ℕ

abbrev pub with_discard : Option ℕ → List ℕ → List ℕ
with_discard none l = l
with_discard (some c) l = c ∷ l

-- The end of `save_one_client` with an error, which is given to the caller and then freed; the loop
-- over the clients stops.
abbrev failing : ℕ → SaveData → SaveData × Bool
failing e data' = (record data' { error = freed }, true)

-- `save_one_client`, by what the writing of its file gives; whether to stop.
abbrev pub save_by : ℕ → Option ℕ → Saved → SaveData → SaveData × Bool
save_by name written not_saved s = (s, false)
save_by name written (save_failed e) s = failing e s
save_by name (some e) (saved_as k) s = failing e s
save_by name none (saved_as k) s = (
  record s { dir = write_file name k s.dir; discards = with_discard k.discard s.discards },
  false,
)

unfoldable pub save_one_client : System → Client → SaveData → SaveData × Bool
save_one_client sys c s = save_by c.file_name (sys.write c.file_name) c.save s

-- `gsm_store_foreach`.
unfoldable pub save_each : System → List Client → SaveData → SaveData
unfolding save_one_client
save_each sys [] data' = data'
save_each sys (c ∷ r) data' =
    let one = save_one_client sys c data' in
    let rest = save_each sys r one.0 in if one.1 then one.0 else rest

-- The table of discard commands; without a table nothing is found in it.
abbrev pub found : Option (List ℕ) → ℕ → Bool
found none c = false
found (some l) c = contains c l

abbrev pub spawns : System → Option (List ℕ) → Option ℕ → List ℕ
spawns sys table none = []
spawns sys table (some c) = if found table c then [] else if sys.parse c then c ∷ [] else []

-- `gsm_session_clear_one_client`: the command that is spawned.
unfoldable pub clear_one_client : System → Option (List ℕ) → File → List ℕ
clear_one_client sys table f = elim f.key_file [ none ↦ [] | some k ↦ spawns sys table k.discard ]

-- `gsm_session_clear_saved_session`: the files that are left, and the commands that are spawned. A
-- directory that is not there cannot be opened.
unfoldable pub clear_files : System → Option (List ℕ) → List File → List File × List ℕ
unfolding clear_one_client
clear_files sys table [] = ([], [])
clear_files sys table (f ∷ r) =
    let rest = clear_files sys table r in
    (if sys.unlink f.name then rest.0 else f ∷ rest.0, clear_one_client sys table f ++ rest.1)

unfoldable pub clear_saved_session :
    System → Option (List ℕ) → Option (List File) → Option (List File) × List ℕ
unfolding clear_files
clear_saved_session sys table none = (none, [])
clear_saved_session sys table (some files) = let r = clear_files sys table files in (some r.0, r.1)

-- `g_rmdir` takes an empty directory away.
abbrev pub rmdir : Option (List File) → Option (List File)
rmdir none = none
rmdir (some []) = none
rmdir (some (f ∷ r)) = some (f ∷ r)

-- `g_rename` of the new directory: it fails if the old one is there with files in it.
abbrev pub rename : List File → Option (List File) → Disk → Disk
rename new none d = record d { saved = some new; tmp = none }
rename new (some []) d = record d { saved = some new; tmp = none }
rename new (some (f ∷ r)) d = record d { saved = some (f ∷ r); tmp = some new }

-- What is left: the disk, the error of the caller, the commands that were spawned, and whether a freed
-- error was read.
pub record Outcome : Type 0 where
  pub disk : Disk
  pub error : ErrorRef ℕ
  pub spawned : List ℕ
  pub reads_freed : Bool

abbrev is_freed : ErrorRef ℕ → Bool
is_freed freed = true
is_freed _ = false

-- The second half of `gsm_session_save`.
unfoldable pub finish : System → SaveData → Disk → Outcome
unfolding clear_saved_session
finish sys data' d = elim data'.error [
  | null ↦
      let old = clear_saved_session sys (some data'.discards) d.saved in
      record {
        disk = rename data'.dir (rmdir old.0) d;
        error = null;
        spawned = old.1;
        reads_freed = false;
      }
  | error ↦
      let new = clear_saved_session sys none (some data'.dir) in
      record {
        disk = record d { tmp = rmdir new.0 };
        error = error;
        spawned = new.1;
        reads_freed = is_freed error;
      }
]

abbrev nothing_done : Disk → Outcome
nothing_done d = record { disk = d; error = null; spawned = []; reads_freed = false }

-- `gsm_session_save`, with an error that is not set, by the directories that are found.
abbrev pub save_to : System → List Client → Disk → Option (List File) → Outcome
save_to sys clients d none = nothing_done d
save_to sys clients d (some files) =
    finish sys (save_each sys clients (record { dir = files; discards = []; error = null })) d

abbrev pub save_in : System → List Client → Disk → Bool → Outcome
save_in sys clients d false = nothing_done d
save_in sys clients d true = let e = get_empty_tmp_session_dir sys d in save_to sys clients e e.tmp

unfoldable pub gsm_session_save : System → List Client → Disk → Outcome
unfolding get_saved_session_dir get_empty_tmp_session_dir save_each finish
gsm_session_save sys clients d =
    let e = get_saved_session_dir sys d in save_in sys clients e e.saved_session_dir
