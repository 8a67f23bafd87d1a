-- ===== src/Preferences/AppManager/Filled.antt =====
-- The applications that the dialog starts with (capplet/gsp-app-manager.c).
use mate_session_manager.Base.{
  ℕ, suc, ◌≡◌, refl, ◌∙◌, Bool, true, false, ◌&&◌, Option, none, some, List, [], ◌∷◌, if◌then◌else◌,
  is_some, contains, Bool-cases, inl, inr,
}
use mate_session_manager.Preferences.{KeyFile, World, App}
use mate_session_manager.Preferences.Reload.{load, empty, can_launch, lowest}
use mate_session_manager.Preferences.AppManager.{
  Files, AppManager, returned, find_app, get_dir_index, new_app, fill_listed, fill_from_dir,
  fill_dirs, fill, failed, is_user_first,
}
use mate_session_manager.Preferences.AppManager.Filling.{visit, ok, ok_later, visit-ok, Reads}
use mate_session_manager.Preferences.AppManager.Listings.{all_differ, fill_names_lem}

abbrev listed : ℕ → Option (List ℕ) → Bool
listed k none = false
listed k (some l) = contains k l

abbrev pub differ : Option (List ℕ) → Bool
differ none = true
differ (some l) = all_differ l

-- What one name becomes, with no regard to the others: the directories, from an index on, are read in
-- turn, each once, and those matter that list the name.
abbrev turn : World → Files → ℕ → ℕ → ℕ → Option App → Option App
turn w f d i k o = if listed k (f.names d) && f.is_desktop k then visit w f d i k o else o

abbrev pub expected : World → Files → ℕ → ℕ → List (ℕ × ℕ) → List ℕ → Option App → Option App
expected w f k i seen [] o = o
expected w f k i seen (d ∷ l) o =
    let old = is_some (get_dir_index d seen) in
    expected w f k (suc i) (if old then seen else (d, i) ∷ seen) l
      (if old then o else turn w f d i k o)

turn-ok :
    (w : World) (f : Files) (d i k : ℕ) (o : Option App)
    → ok i o ≡ true
    → ok (suc i) (turn w f d i k o) ≡ true
turn-ok w f d i k o h = elim (Bool-cases (listed k (f.names d) && f.is_desktop k)) [
  | inl e ↦ rw e (visit-ok w f d i k o h)
  | inr e ↦ rw e (ok_later i o h)
]

fill_listed_lem :
    (w : World) (f : Files) (dir i : ℕ) (names : Option (List ℕ)) (m : AppManager)
    → differ names ≡ true
    → ((k : ℕ) → ok i (find_app k m.apps) ≡ true)
    → (n : AppManager) × (fill_listed w f dir i m names ≡ returned n)
      × (n.dirs ≡ m.dirs)
      × ((k : ℕ) → Reads w f dir i (listed k names && f.is_desktop k) k m n)
fill_listed_lem w f dir i none m d h = (m, refl, refl, λ k. refl)
fill_listed_lem w f dir i (some l) m d h = fill_names_lem w f dir i l m d (λ k c. h k)

fill_dirs_lem :
    (w : World) (f : Files) (i : ℕ) (dirs : List ℕ) (m : AppManager)
    → ((d : ℕ) → differ (f.names d) ≡ true)
    → ((k : ℕ) → ok i (find_app k m.apps) ≡ true)
    → (n : AppManager) × (fill_dirs w f i dirs m ≡ returned n)
      × ((k : ℕ) → find_app k n.apps ≡ expected w f k i m.dirs dirs (find_app k m.apps))
unfolding fill_dirs fill_from_dir
fill_dirs_lem w f i [] m d h = (m, refl, λ k. refl)
fill_dirs_lem w f i (dir ∷ l) m d h = elim (Bool-cases (is_some (get_dir_index dir m.dirs))) [
  | inl old ↦
      let (n, e, all) =
        fill_dirs_lem w f (suc i) l m d (λ k. ok_later i (find_app k m.apps) (h k)) in
      (n, rw old e, λ k. rw old (all k))
  | inr new ↦
      let m' : AppManager = record m { dirs = (dir, i) ∷ m.dirs } in
      let (p, e, dirs, reads) = fill_listed_lem w f dir i (f.names dir) m' (d dir) h in
      let (n, e', all) =
        fill_dirs_lem w f (suc i) l p d
          (λ k. rw (reads k) (turn-ok w f dir i k (find_app k m.apps) (h k))) in
      (n, rw (new, e) e', λ k. rw new (all k ∙ rw (reads k, dirs)))
]

abbrev pub empty_manager : AppManager
empty_manager = record { apps = []; dirs = []; signals = [] }

-- No directory lists a name twice. If the first directory is not below the user's configuration
-- directory, or there is none, then filling the empty manager fails its assertion. Else it fails
-- none, and each name has the application that it gets if the directories are read in turn, each once, with no regard to the
-- other names: the first that lists a file of it which can be loaded and is for this desktop gives
-- the application its data and its position, and of the later ones that list the name the
-- first gives the position in the system, if the application has none.
pub fill_lem :
    (w : World) (f : Files) (dirs : List ℕ) (k : ℕ)
    → ((d : ℕ) → differ (f.names d) ≡ true)
    → (is_user_first f dirs ≡ false → fill w f dirs empty_manager ≡ failed)
      × (is_user_first f dirs ≡ true
          → (n : AppManager) × (fill w f dirs empty_manager ≡ returned n)
            × (find_app k n.apps ≡ expected w f k 0 [] dirs none))
unfolding fill find_app
fill_lem w f dirs k d =
    let (n, e, all) = fill_dirs_lem w f 0 dirs empty_manager d (λ j. refl) in
    (λ no. rw no refl, λ yes. (n, rw yes e, all k))

turn-keeps :
    (w : World) (f : Files) (d i k : ℕ) (a : App) (s : Option ℕ)
    → (t : Option ℕ) × (turn w f d i k (some (record a { xdg_system_position = s }))
        ≡ some (record a { xdg_system_position = t }))
turn-keeps w f d i k a s = elim (Bool-cases (listed k (f.names d) && f.is_desktop k)) [
  | inl e ↦ (lowest i s, rw e)
  | inr e ↦ (s, rw e)
]

expected-keeps :
    (w : World) (f : Files) (k i : ℕ) (seen : List (ℕ × ℕ)) (dirs : List ℕ) (a : App) (s : Option ℕ)
    → (t : Option ℕ) × (expected w f k i seen dirs (some (record a { xdg_system_position = s }))
        ≡ some (record a { xdg_system_position = t }))
expected-keeps w f k i seen [] a s = (s, refl)
expected-keeps w f k i seen (d ∷ l) a s = elim (Bool-cases (is_some (get_dir_index d seen))) [
  | inl old ↦ rw old (expected-keeps w f k (suc i) seen l a s)
  | inr new ↦
      let (t, e) = turn-keeps w f d i k a s in
      rw (new, e) (expected-keeps w f k (suc i) ((d, i) ∷ seen) l a t)
]

-- If the user's directory, which is the first and below the configuration directory, lists a file that can be loaded and is for this
-- desktop, the application of that name shows the data of it, whatever the other directories
-- hold.
pub user_file_wins :
    (w : World) (f : Files) (user_dir : ℕ) (dirs : List ℕ) (k : ℕ) (file : KeyFile)
    → ((d : ℕ) → differ (f.names d) ≡ true)
    → f.is_in_config user_dir ≡ true
    → listed k (f.names user_dir) && f.is_desktop k ≡ true
    → f.read user_dir k ≡ some file
    → can_launch w file ≡ true
    → (n : AppManager) × (s : Option ℕ) × (fill w f (user_dir ∷ dirs) empty_manager ≡ returned n)
      × (find_app k n.apps ≡ some (record (load w file 0 empty) { xdg_system_position = s }))
unfolding new_app get_dir_index
user_file_wins w f user_dir dirs k file d first here r can =
    let (n, e, is) = (fill_lem w f (user_dir ∷ dirs) k d).1 first in
    let (s, x) = expected-keeps w f k 1 ((user_dir, 0) ∷ []) dirs (load w file 0 empty) none in
    (n, s, e, is ∙ rw (here, r, can) x)
