-- ===== src/Preferences/AppManager/Filling.antt =====
-- How the applications are read when the dialog starts (capplet/gsp-app-manager.c).
use mate_session_manager.Base.{
  ℕ, suc, ◌≡◌, refl, Bool, true, not, ◌&&◌, Option, none, some, List, [], ◌∷◌, if◌then◌else◌, ◌==◌,
  ==_iff, ltb, is_some, arith, Bool-cases, Option-cases, inl, inr,
}
use mate_session_manager.Preferences.{KeyFile, World, App}
use mate_session_manager.Preferences.Reload.{ignored, reload, lowest}
use mate_session_manager.Preferences.AppManager.{
  Files, AppManager, returned, find_app, put_app, add, add_new, new_app, fill_by,
}

-- What becomes of the application of a name, if there is one, when a directory with a file of that name
-- is read.
abbrev pub visit : World → Files → ℕ → ℕ → ℕ → Option App → Option App
visit w f dir i name none = new_app w i (f.read dir name)
visit w f dir i name (some a) =
    some (record a { xdg_system_position = lowest i a.xdg_system_position })

-- An application that was read from a directory before an index, and not changed since.
abbrev pub ok : ℕ → Option App → Bool
ok i none = true
ok i (some a) = ltb a.xdg_position i && not a.save_timeout

pub ok_later : (i : ℕ) (o : Option App) → ok i o ≡ true → ok (suc i) o ≡ true
ok_later i none h = refl
ok_later i (some a) h = ground arith

pub visit-ok :
    (w : World) (f : Files) (dir i name : ℕ) (o : Option App)
    → ok i o ≡ true
    → ok (suc i) (visit w f dir i name o) ≡ true
unfolding new_app
visit-ok w f dir i name none h = elim (Option-cases (f.read dir name)) [
  | inl e ↦ rw e
  | inr (k, e) ↦ rw e (ground arith)
]
visit-ok w f dir i name (some a) h = ground arith

find_app-put_app_any :
    (k name : ℕ) (a : App) (l : List (ℕ × App))
    → find_app k (put_app name a l)
      ≡ (if (k == name) && is_some (find_app name l) then some a else find_app k l)
unfolding find_app
find_app-put_app_any k name a [] = ground arith
find_app-put_app_any k name a ((n, b) ∷ l) = ground (arith, find_app-put_app_any k name a l)

-- What an application is, once a name has been read.
abbrev pub Reads : World → Files → ℕ → ℕ → Bool → (k : ℕ) → AppManager → AppManager → Type 0
Reads w f dir i read k m n =
    find_app k n.apps ≡ (if read then visit w f dir i k (find_app k m.apps) else find_app k m.apps)

reload-ignored :
    (w : World) (file : Option KeyFile) (i : ℕ) (a : App)
    → ok i (some a) ≡ true
    → reload w file i a
      ≡ ignored (record a { xdg_system_position = lowest i a.xdg_system_position })
unfolding reload
reload-ignored w file i a h = ground arith

known-Reads :
    (w : World) (f : Files) (dir i name k : ℕ) (a : App) (m : AppManager)
    → find_app name m.apps ≡ some a
    → let b = record a { xdg_system_position = lowest i a.xdg_system_position } in
      Reads w f dir i (k == name) k m (record m { apps = put_app name b m.apps })
known-Reads w f dir i name k a m e =
    let b = record a { xdg_system_position = lowest i a.xdg_system_position } in
    elim (Bool-cases (k == name)) [
      | inl q ↦ rw (find_app-put_app_any k name b m.apps, e, q, (==_iff k name).0 q, e)
      | inr q ↦ rw (find_app-put_app_any k name b m.apps, e, q)
    ]

new-Reads :
    (w : World) (f : Files) (dir i name k : ℕ) (m : AppManager) (o : Option App)
    → find_app name m.apps ≡ none
    → new_app w i (f.read dir name) ≡ o
    → Reads w f dir i (k == name) k m (add_new name m o)
unfolding add find_app
new-Reads w f dir i name k m none e h = elim (Bool-cases (k == name)) [
  | inl q ↦ rw (q, (==_iff k name).0 q, e, h)
  | inr q ↦ rw q
]
new-Reads w f dir i name k m (some a) e h = elim (Bool-cases (k == name)) [
  | inl q ↦ rw (q, (==_iff k name).0 q, e, h)
  | inr q ↦ rw q
]

add_new-dirs : (name : ℕ) (m : AppManager) (o : Option App) → (add_new name m o).dirs ≡ m.dirs
unfolding add
add_new-dirs name m none = refl
add_new-dirs name m (some a) = refl

pub fill_by_lem :
    (w : World) (f : Files) (dir i name : ℕ) (m : AppManager) (o : Option App)
    → find_app name m.apps ≡ o
    → ok i o ≡ true
    → (n : AppManager) × (fill_by w f dir i name m o ≡ returned n)
      × (n.dirs ≡ m.dirs)
      × ((k : ℕ) → Reads w f dir i (k == name) k m n)
fill_by_lem w f dir i name m none e h = (
  add_new name m (new_app w i (f.read dir name)),
  refl,
  add_new-dirs name m (new_app w i (f.read dir name)),
  λ k. new-Reads w f dir i name k m (new_app w i (f.read dir name)) e refl,
)
fill_by_lem w f dir i name m (some a) e h = (
  record m {
    apps = put_app name (record a { xdg_system_position = lowest i a.xdg_system_position }) m.apps;
  },
  rw (reload-ignored w (f.read dir name) i a h),
  refl,
  λ k. known-Reads w f dir i name k a m e,
)
