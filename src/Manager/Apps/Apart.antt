-- ===== src/Manager/Apps/Apart.antt =====
-- No two applications of the store have one application id (mate-session/gsm-manager.c).
use text.Mathlib.TextEquality.{eq_iff}
use mate_session_manager.Base.{
  ℕ, ◌≡◌, refl, sym, ◌∙◌, ◌≢◌, Bool, true, false, Option, none, some, List, [], ◌∷◌, String, arith,
  if◌then◌else◌, is_string_empty, strcmp_eq, nat_eq, Option-cases, Bool-cases, inl, inr,
}
use mate_session_manager.Store
use mate_session_manager.Store.Search.{insert_in-absent}
use mate_session_manager.Manager.Types.{Manager, App}
use mate_session_manager.Manager.Clients.{find_app_for_app_id, app_has_app_id}
use mate_session_manager.Manager.Apps.{
  Files, append_app, add_autostart_app, add_each, add_autostart_apps_from_dir,
}

-- Whether an application has the id of another.
unfoldable pub same_app_id : App → ℕ → App → Bool
unfolding app_has_app_id
same_app_id a key b = elim a.app_id [ none ↦ false | some s ↦ app_has_app_id s key b ]

-- Each application has an id, and no other has the same.
abbrev pub AreApart : List (ℕ × App) → Type 0
AreApart [] = Unit {0}
AreApart ((_, a) ∷ r) =
    (is_string_empty a.app_id ≡ false) × (Store.find_in (same_app_id a) r ≡ none) × AreApart r

strcmp_eq_sym : (s t : String) → strcmp_eq s t ≡ false → strcmp_eq t s ≡ false
strcmp_eq_sym s t h = elim (Bool-cases (strcmp_eq t s)) [
  | inr e ↦ e
  | inl e ↦ absurd (true≢false (sym ((eq_iff s t).1 (sym ((eq_iff t s).0 e))) ∙ h))
]
  where
    true≢false : true ≢ false
    true≢false q = cc

same_app_id_sym : (a b : App) (j k : ℕ) → same_app_id a j b ≡ false → same_app_id b k a ≡ false
unfolding same_app_id app_has_app_id
same_app_id_sym a b j k h = elim (Option-cases a.app_id) [
  | inl e ↦ ground arith
  | inr (s, e) ↦ elim (Option-cases b.app_id) [
    | inl f ↦ ground arith
    | inr (t, f) ↦ ground (arith, strcmp_eq_sym s t)
  ]
]

insert_in-AreApart :
    (a : App) (l : List (ℕ × App))
    → Store.lookup_in a.id l ≡ none
    → is_string_empty a.app_id ≡ false
    → Store.find_in (same_app_id a) l ≡ none
    → AreApart l
    → AreApart (Store.insert_in a.id a l)
unfolding Store.insert_in Store.lookup_in Store.find_in
insert_in-AreApart a [] n s f d = ground arith
insert_in-AreApart a ((j, b) ∷ r) n s f d = ground (
  arith,
  λ (x : Store.lookup_in a.id r ≡ none).
      λ (y : Store.find_in (same_app_id a) r ≡ none). insert_in-AreApart a r x s y d.2,
  λ (x : Store.lookup_in a.id r ≡ none).
      λ (y : same_app_id b a.id a ≡ false). insert_in-absent (same_app_id b) a.id a r x y,
  same_app_id_sym a b j a.id,
)

find_in-same_app_id :
    (a : App) (s : String) (l : List (ℕ × App))
    → a.app_id ≡ some s
    → Store.find_in (app_has_app_id s) l ≡ none
    → Store.find_in (same_app_id a) l ≡ none
unfolding Store.find_in same_app_id
find_in-same_app_id a s [] e h = refl
find_in-same_app_id a s ((j, b) ∷ r) e h =
    ground (arith, λ (x : Store.find_in (app_has_app_id s) r ≡ none). find_in-same_app_id a s r e x)

append_app-AreApart :
    (a : App) (m : Manager) → AreApart m.apps.objects → AreApart (append_app a m).apps.objects
unfolding append_app Store.lookup Store.find Store.add find_app_for_app_id
append_app-AreApart a m d = elim (Option-cases a.app_id) [
  | inl e ↦ ground (arith, e, d)
  | inr (s, e) ↦ elim (Option-cases (Store.find_in (app_has_app_id s) m.apps.objects)) [
    | inr (x, f) ↦ ground (arith, e, f, d)
    | inl f ↦ elim (Option-cases (Store.lookup_in a.id m.apps.objects)) [
      | inr (x, n) ↦ ground (arith, n, d)
      | inl n ↦ ground (
        arith,
        λ (t : is_string_empty a.app_id ≡ false).
            insert_in-AreApart a m.apps.objects n t (find_in-same_app_id a s m.apps.objects e f) d,
      )
    ]
  ]
]

pub add_autostart_app-AreApart :
    (files : Files) (path : String) (service : Option String) (m : Manager)
    → AreApart m.apps.objects
    → AreApart (add_autostart_app files path service m).0.apps.objects
unfolding add_autostart_app
add_autostart_app-AreApart files path service m d = elim (Option-cases (files.load path)) [
  | inl e ↦ ground (arith, e, d)
  | inr (a, e) ↦ ground (arith, e, d, append_app-AreApart a m d)
]

add_each-AreApart :
    (files : Files) (path : String) (names : List String) (m : Manager)
    → AreApart m.apps.objects
    → AreApart (add_each files path names m).apps.objects
unfolding add_each
add_each-AreApart files path [] m d = d
add_each-AreApart files path (name ∷ r) m d =
    let file : String = files.build_filename path name in
    add_each-AreApart files path r
      (if files.is_desktop name then (add_autostart_app files file none m).0 else m)
      (ground (arith, d, add_autostart_app-AreApart files file none m d))

-- Whatever the files of a directory say, in whatever order: if each application of the store has an
-- application id that no other has, this is still so after those of the directory were added.
pub autostart_dir-AreApart :
    (files : Files) (path : String) (m : Manager)
    → AreApart m.apps.objects
    → AreApart (add_autostart_apps_from_dir files path m).0.apps.objects
unfolding add_autostart_apps_from_dir
autostart_dir-AreApart files path m d = elim (Option-cases (files.read_dir path)) [
  | inl e ↦ ground (arith, e, d)
  | inr (names, e) ↦ ground (arith, e, d, add_each-AreApart files path names m d)
]
