-- ===== src/Preferences/Creating.antt =====
-- A new autostart file from the preferences dialog (capplet/gsp-app.c).
use mate_session_manager.Base.{
  ℕ, suc, zero, ◌+◌, ◌<◌, ◌≡◌, Bool, true, false, ◌&&◌, Option, none, some, if◌then◌else◌, arith,
}
use mate_session_manager.Preferences.{App, World, user, queue_save}
use mate_session_manager.Preferences.Reload.{empty}

-- The names that may be tried: 0 is the suggested one, and any other number stands behind it. An
-- application of a name may be known to the dialog, and a file of it may be in the user's directory.
pub record Names : Type 0 where
  pub known : ℕ → Bool
  pub file_exists : ℕ → Bool

-- The loop of `_gsp_find_free_basename`, which goes on while both tests succeed; with no tries left
-- there is no name.
unfoldable pub search : Names → ℕ → ℕ → Option ℕ
search names zero n = none
search names (suc tries) n = elim (names.known n && names.file_exists n) [
  | true ↦ search names tries (n + 1)
  | false ↦ some n
]

-- `_gsp_find_free_basename`, with `_GSP_FIND_MAX_TRY`.
unfoldable pub find_free_basename : Names → Option ℕ
unfolding search
find_free_basename names = search names 9999 0

-- `gsp_app_create` once it has a name: all bits of the mask are set.
unfoldable pub create : World → ℕ → ℕ → ℕ → ℕ → App
unfolding queue_save
create w name comment exec delay = queue_save (record empty {
  path = user;
  hidden = false;
  name = if w.is_blank name then exec else name;
  exec = exec;
  comment = comment;
  delay = delay;
  icon = 0;
  xdg_position = 0;
  xdg_system_position = none;
  save_hidden = true;
  save_name = true;
  save_exec = true;
  save_comment = true;
  save_delay = true;
})

search_lem :
    (names : Names) (tries n m : ℕ)
    → search names tries n ≡ some m
    → (names.known m && names.file_exists m ≡ false) × (m < n + tries)
unfolding search
search_lem names zero n m h = ground arith
search_lem names (suc tries) n m h = let ih = search_lem names tries (n + 1) m in ground arith

-- The name that is found is not both known and there as a file, and it is one of the first 9999.
pub find_free_basename_lem :
    (names : Names) (m : ℕ)
    → find_free_basename names ≡ some m
    → (names.known m && names.file_exists m ≡ false) × (m < 9999)
unfolding find_free_basename
find_free_basename_lem names m h = search_lem names 9999 0 m h

search_stops :
    (names : Names) (tries n : ℕ)
    → names.known n && names.file_exists n ≡ false
    → search names (suc tries) n ≡ some n
unfolding search
search_stops names tries n h = ground arith

-- The suggested name is known, but has no file in the user's directory, as it is with an application
-- of a system directory: it is given to the new file all the same.
pub known_name_is_free :
    (names : Names)
    → names.known 0 ≡ true
    → names.file_exists 0 ≡ false
    → find_free_basename names ≡ some 0
unfolding find_free_basename
known_name_is_free names k f = search_stops names 9998 0 (rw (k, f))
