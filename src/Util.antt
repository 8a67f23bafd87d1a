-- ===== src/Util.antt =====
-- mate-session/gsm-util.c: directories of desktop files, and the search for the file of an
-- application. Paths are joined outside; an array is a list of cells, of which some are not set.
pub mod Dirs
use mate_session_manager.Base.{
  ℕ, suc, zero, ◌+◌, ◌-◌, Bool, true, false, Option, none, some, List, [], ◌∷◌, ◌++◌, map, length,
  String, if◌then◌else◌, ltb,
}

-- The environment: `g_build_filename` with the parts of the path after the first, and the directories
-- that GLib names.
pub record Environment : Type 0 where
  pub build_filename : String → List String → String
  pub user_data_dir : String
  pub user_config_dir : String
  pub system_data_dirs : List String
  pub system_config_dirs : List String

-- `gsm_util_get_app_dirs`.
unfoldable pub get_app_dirs : Environment → List String
get_app_dirs env =
    env.build_filename env.user_data_dir ("applications" ∷ [])
    ∷ map (λ d. env.build_filename d ("applications" ∷ [])) env.system_data_dirs

-- `gsm_util_get_autostart_dirs`.
unfoldable pub get_autostart_dirs : Environment → List String
get_autostart_dirs env =
    env.build_filename env.user_config_dir ("autostart" ∷ [])
    ∷ (map (λ d. env.build_filename d ("mate" ∷ "autostart" ∷ [])) env.system_data_dirs
        ++ map (λ d. env.build_filename d ("autostart" ∷ [])) env.system_config_dirs)

-- An array of pointers to text; a cell that is not set is `none`, and NULL is `some none`.
abbrev pub Cells : Type 0
Cells = List (Option (Option String))

-- `g_new`.
abbrev pub new_cells : ℕ → Cells
new_cells zero = []
new_cells (suc n) = none ∷ new_cells n

abbrev pub and_then {ℓ} : {A : Type ℓ} → {B : Type ℓ} → Option A → (A → Option B) → Option B
and_then none f = none
and_then (some a) f = f a

-- A write; `none` if it is outside.
unfoldable pub write : ℕ → Option String → Cells → Option Cells
write i p [] = none
write zero p (_ ∷ r) = some (some p ∷ r)
write (suc i) p (c ∷ r) = elim (write i p r) [ none ↦ none | some w ↦ some (c ∷ w) ]

-- The loop `result[start + i] = from[i]`.
unfoldable pub copy_from : ℕ → List String → Cells → Option Cells
unfolding write
copy_from start [] cells = some cells
copy_from start (p ∷ r) cells =
    and_then (write start (some p) cells) (λ w. copy_from (start + 1) r w)

-- `gsm_util_get_desktop_dirs`, of the two lists and the directory of the saved session; `none` is a write
-- outside the array.
unfoldable pub desktop_dirs : List String → List String → Option String → Option Cells
unfolding copy_from
desktop_dirs apps autostart saved =
    let size = length apps + length autostart + 2 in
    and_then (copy_from 0 apps (new_cells (size + 1))) (λ a.
      and_then (copy_from (length apps) autostart a) (λ b.
        and_then (write (length apps + length autostart) saved b)
          (λ c. write (length apps + length autostart + 1) none c)))

unfoldable pub get_desktop_dirs : Environment → Option String → Option Cells
unfolding get_app_dirs get_autostart_dirs desktop_dirs
get_desktop_dirs env saved = desktop_dirs (get_app_dirs env) (get_autostart_dirs env) saved

-- A vector is read up to the first NULL; `none` if a cell is not set or the array ends before.
unfoldable pub read_vector : Cells → Option (List String)
read_vector [] = none
read_vector (none ∷ r) = none
read_vector (some none ∷ r) = some []
read_vector (some (some p) ∷ r) = elim (read_vector r) [ none ↦ none | some l ↦ some (p ∷ l) ]

-- The search that `g_key_file_load_from_dirs` makes for a file in some directories, and the names
-- `<name>.desktop` and `mate-<name>.desktop`.
pub record Files : Type 0 where
  pub load_from_dirs : String → List String → Option String
  pub plain : String → String
  pub vendor : String → String

abbrev pub or_else : Option String → Option String → Option String
or_else none later = later
or_else (some path) later = some path

abbrev pub load_with : Files → String → Option (List String) → Option String
load_with files name none = none
load_with files name (some dirs) = files.load_from_dirs name dirs

-- `gsm_util_find_desktop_file_for_app_name`.
unfoldable pub find_desktop_file_for_app_name :
    Environment → Files → String → Option (List String) → Option String
unfolding get_app_dirs
find_desktop_file_for_app_name env files name autostart_dirs =
    or_else
      (or_else
        (or_else (files.load_from_dirs (files.plain name) (get_app_dirs env))
          (load_with files (files.plain name) autostart_dirs))
        (files.load_from_dirs (files.vendor name) (get_app_dirs env)))
      (load_with files (files.vendor name) autostart_dirs)
