-- ===== src/Preferences/AppManager/Listings.antt =====
-- How the files that a directory lists are read when the dialog starts (capplet/gsp-app-manager.c).
use mate_session_manager.Base.{
  ℕ, ◌≡◌, refl, sym, ◌∙◌, Bool, true, false, not, ◌&&◌, ◌||◌, Option, List, [], ◌∷◌, if◌then◌else◌,
  ◌==◌, ==_iff, contains, arith, Bool-cases, inl, inr,
}
use mathlib.Core.Path.{subst}
use mate_session_manager.Preferences.{World, App}
use mate_session_manager.Preferences.AppManager.{
  Files, AppManager, returned, find_app, fill_name, fill_names,
}
use mate_session_manager.Preferences.AppManager.Filling.{visit, ok, Reads, fill_by_lem}

either_true :
    (b : Bool) (w : World) (f : Files) (dir i k : ℕ) (m n : AppManager)
    → Reads w f dir i b k m n
    → Reads w f dir i (b && true) k m n
either_true true w f dir i k m n h = h
either_true false w f dir i k m n h = h

not_read :
    (b : Bool) (w : World) (f : Files) (dir i k : ℕ) (m : AppManager)
    → Reads w f dir i (b && false) k m m
not_read true w f dir i k m = refl
not_read false w f dir i k m = refl

same_test :
    (f : Files) (name k : ℕ) (b : Bool)
    → f.is_desktop name ≡ b
    → (name == k) && f.is_desktop k ≡ (k == name) && b
same_test f name k b e = elim (Bool-cases (k == name)) [
  | inl q ↦ rw (q, (==_iff k name).0 q, e, (==_iff name name).1 refl)
  | inr q ↦ ground arith
]

fill_name_lem :
    (w : World) (f : Files) (dir i name : ℕ) (m : AppManager)
    → ok i (find_app name m.apps) ≡ true
    → (n : AppManager) × (fill_name w f dir i name m ≡ returned n)
      × (n.dirs ≡ m.dirs)
      × ((k : ℕ) → Reads w f dir i ((name == k) && f.is_desktop k) k m n)
unfolding fill_name
fill_name_lem w f dir i name m h = elim (Bool-cases (f.is_desktop name)) [
  | inl e ↦
      let (n, er, dirs, reads) = fill_by_lem w f dir i name m (find_app name m.apps) refl h in
      (
        n,
        rw e er,
        dirs,
        λ k.
            subst (λ (b : Bool). Reads w f dir i b k m n) (sym (same_test f name k true e))
              (either_true (k == name) w f dir i k m n (reads k)),
      )
  | inr e ↦ (
    m,
    rw e,
    refl,
    λ k.
        subst (λ (b : Bool). Reads w f dir i b k m m) (sym (same_test f name k false e))
          (not_read (k == name) w f dir i k m),
  )
]

-- The names of a listing differ.
abbrev pub all_differ : List ℕ → Bool
all_differ [] = true
all_differ (n ∷ l) = not (contains n l) && all_differ l

once :
    (name k : ℕ) (l : List ℕ) → all_differ (name ∷ l) ≡ true → (name == k) && contains k l ≡ false
once name k l d = elim (Bool-cases (name == k)) [
  | inl q ↦
      let e : contains k l ≡ contains name l = rw ((==_iff name k).0 q) in rw (q, e) (ground arith)
  | inr q ↦ rw q
]

not_twice :
    (name k : ℕ) (l : List ℕ)
    → all_differ (name ∷ l) ≡ true
    → contains k l ≡ true
    → (name == k) ≡ true
    → ⊥
not_twice name k l d c q = let o = once name k l d in ground arith

-- Two readings, of which one at most is of this name.
join :
    (a c b : Bool) (v : Option App → Option App) (x y z : Option App)
    → a && c ≡ false
    → y ≡ (if a && b then v x else x)
    → z ≡ (if c && b then v y else y)
    → z ≡ (if (a || c) && b then v x else x)
join true true b v x y z h p q = cc
join true false true v x y z h p q = cc
join true false false v x y z h p q = cc
join false true true v x y z h p q = cc
join false true false v x y z h p q = cc
join false false true v x y z h p q = cc
join false false false v x y z h p q = cc

-- The other names are as they were.
rest_ok :
    (w : World) (f : Files) (dir i name : ℕ) (l : List ℕ) (k : ℕ) (m : AppManager)
    → all_differ (name ∷ l) ≡ true
    → contains k l ≡ true
    → ok i (find_app k m.apps) ≡ true
    → ok i (
        if (name == k) && f.is_desktop k
        then visit w f dir i k (find_app k m.apps)
        else find_app k m.apps)
      ≡ true
rest_ok w f dir i name l k m d c h = elim (Bool-cases (name == k)) [
  | inl q ↦ absurd (not_twice name k l d c q)
  | inr q ↦ rw q h
]

pub fill_names_lem :
    (w : World) (f : Files) (dir i : ℕ) (names : List ℕ) (m : AppManager)
    → all_differ names ≡ true
    → ((k : ℕ) → contains k names ≡ true → ok i (find_app k m.apps) ≡ true)
    → (n : AppManager) × (fill_names w f dir i names m ≡ returned n)
      × (n.dirs ≡ m.dirs)
      × ((k : ℕ) → Reads w f dir i (contains k names && f.is_desktop k) k m n)
unfolding fill_names
fill_names_lem w f dir i [] m d h = (m, refl, refl, λ k. refl)
fill_names_lem w f dir i (name ∷ l) m d h =
    let (n, e, dirs, reads) = fill_name_lem w f dir i name m (h name (ground arith)) in
    let (p, e', dirs', reads') =
      fill_names_lem w f dir i l n (ground arith)
        (λ k c. rw (reads k) (rest_ok w f dir i name l k m d c (h k (ground arith)))) in
    (
      p,
      rw e e',
      dirs' ∙ dirs,
      λ k.
          join (name == k) (contains k l) (f.is_desktop k) (visit w f dir i k) (find_app k m.apps)
            (find_app k n.apps) (find_app k p.apps) (once name k l d) (reads k) (reads' k),
    )
