-- ===== src/Preferences/AppManager/Searching.antt =====
-- Where the system has another file of a name (capplet/gsp-app-manager.c).
use mate_session_manager.Base.{
  ℕ, ◌≤◌, ◌≡◌, refl, Bool, true, false, not, ◌&&◌, ◌||◌, Option, none, some, List, [], ◌∷◌,
  if◌then◌else◌, ◌==◌, ltb, leb, is_some, arith,
}
use mate_session_manager.Preferences.Reload.{lowest}
use mate_session_manager.Preferences.AppManager.{Files, find_dir_from, find_dir_with_basename}

-- A directory of an index above the minimum has a file of the name that can be loaded.
abbrev pub stands_at : Files → ℕ → ℕ → ℕ → List (ℕ × ℕ) → Bool
stands_at f name minimum q [] = false
stands_at f name minimum q ((d, i) ∷ l) =
    ((q == i) && (ltb minimum i && is_some (f.read d name))) || stands_at f name minimum q l

abbrev is_result : ℕ → Option ℕ → Bool
is_result q none = false
is_result q (some p) = q == p

abbrev at_most : Option ℕ → ℕ → Bool
at_most none i = false
at_most (some q) i = leb q i

find_dir_from-keeps :
    (f : Files) (name minimum : ℕ) (result : Option ℕ) (l : List (ℕ × ℕ)) (i : ℕ)
    → at_most result i ≡ true
    → at_most (find_dir_from f name minimum result l) i ≡ true
unfolding find_dir_from
find_dir_from-keeps f name minimum result [] i h = h
find_dir_from-keeps f name minimum none ((d, j) ∷ l) i h = cc
find_dir_from-keeps f name minimum (some q) ((d, j) ∷ l) i h =
    find_dir_from-keeps f name minimum
      (if leb j minimum
        then some q
        else if not (is_some (f.read d name))
        then some q
        else lowest j (some q))
      l i (ground arith)

find_dir_from-least :
    (f : Files) (name minimum : ℕ) (result : Option ℕ) (l : List (ℕ × ℕ)) (i : ℕ)
    → stands_at f name minimum i l ≡ true
    → at_most (find_dir_from f name minimum result l) i ≡ true
unfolding find_dir_from
find_dir_from-least f name minimum result [] i h = cc
find_dir_from-least f name minimum result ((d, j) ∷ l) i h =
    let next : Option ℕ =
      if leb j minimum
      then result
      else if not (is_some (f.read d name))
      then result
      else lowest j result in
    ground (
      arith,
      find_dir_from-keeps f name minimum next l i,
      find_dir_from-least f name minimum next l i,
    )

find_dir_from-stands :
    (f : Files) (name minimum : ℕ) (result : Option ℕ) (l : List (ℕ × ℕ)) (q : ℕ)
    → find_dir_from f name minimum result l ≡ some q
    → is_result q result || stands_at f name minimum q l ≡ true
unfolding find_dir_from
find_dir_from-stands f name minimum result [] q h = ground arith
find_dir_from-stands f name minimum result ((d, j) ∷ l) q h =
    let next : Option ℕ =
      if leb j minimum
      then result
      else if not (is_some (f.read d name))
      then result
      else lowest j result in
    ground (arith, find_dir_from-stands f name minimum next l q h)

at_most_inv : (o : Option ℕ) (i : ℕ) → at_most o i ≡ true → (q : ℕ) × (o ≡ some q) × (q ≤ i)
at_most_inv none i h = cc
at_most_inv (some q) i h = (q, refl, ground arith)

-- If a directory of an index above the minimum has a file of the name that can be loaded, the search finds
-- such an index, and one that is not above it: the least.
pub find_dir_with_basename-least :
    (f : Files) (name minimum : ℕ) (dirs : List (ℕ × ℕ)) (i : ℕ)
    → stands_at f name minimum i dirs ≡ true
    → (q : ℕ) × (find_dir_with_basename f name minimum dirs ≡ some q)
      × (q ≤ i)
      × (stands_at f name minimum q dirs ≡ true)
unfolding find_dir_with_basename
find_dir_with_basename-least f name minimum dirs i h =
    let (q, e, le) =
      at_most_inv (find_dir_from f name minimum none dirs) i
        (find_dir_from-least f name minimum none dirs i h) in
    (q, e, le, find_dir_from-stands f name minimum none dirs q e)
