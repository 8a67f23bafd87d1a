-- ===== src/Util/Dirs.antt =====
-- The array of directories that `gsm_util_get_desktop_dirs` fills (mate-session/gsm-util.c).
use mate_session_manager.Base.{
  ℕ, suc, ◌+◌, ◌≡◌, refl, ap, sym, ◌∙◌, Option, none, some, List, [], ◌∷◌, ◌++◌, length, String,
  arith,
}
use mate_session_manager.Util.{
  Environment, get_app_dirs, get_autostart_dirs, Cells, new_cells, write, copy_from, and_then,
  desktop_dirs, get_desktop_dirs, read_vector,
}

-- Cells that are set, before others.
abbrev set_before : List String → Cells → Cells
set_before [] rest = rest
set_before (p ∷ r) rest = some (some p) ∷ set_before r rest

write-set :
    (l : List String) (p : Option String) (c : Option (Option String)) (rest : Cells)
    → write (length l) p (set_before l (c ∷ rest)) ≡ some (set_before l (some p ∷ rest))
unfolding write
write-set [] p c rest = refl
write-set (x ∷ l) p c rest = rw (write-set l p c rest)

write-next :
    (l : List String) (p : Option String) (c d : Option (Option String)) (rest : Cells)
    → write (suc (length l)) p (set_before l (c ∷ d ∷ rest))
      ≡ some (set_before l (c ∷ some p ∷ rest))
unfolding write
write-next [] p c d rest = refl
write-next (x ∷ l) p c d rest = rw (write-next l p c d rest)

append_assoc :
    (a : List String) (p : String) (b : List String) → (a ++ (p ∷ [])) ++ b ≡ a ++ (p ∷ b)
append_assoc [] p b = refl
append_assoc (x ∷ a) p b = ap (◌∷◌ x) (append_assoc a p b)

append_nil : (a : List String) → a ++ [] ≡ a
append_nil [] = refl
append_nil (x ∷ a) = ap (◌∷◌ x) (append_nil a)

length-snoc : (a : List String) (p : String) → length a + 1 ≡ length (a ++ (p ∷ []))
length-snoc [] p = refl
length-snoc (x ∷ a) p = let ih = length-snoc a p in omega arith

length-append : (a b : List String) → length (a ++ b) ≡ length a + length b
length-append [] b = omega arith
length-append (x ∷ a) b = let ih = length-append a b in omega arith

set_before-snoc :
    (a : List String) (p : String) (rest : Cells)
    → set_before a (some (some p) ∷ rest) ≡ set_before (a ++ (p ∷ [])) rest
set_before-snoc [] p rest = refl
set_before-snoc (x ∷ a) p rest = ap (◌∷◌ (some (some x))) (set_before-snoc a p rest)

-- The cells that the loop goes over, and the rest.
abbrev spare : List String → Cells → Cells
spare [] rest = rest
spare (p ∷ l) rest = none ∷ spare l rest

copy_from-set :
    (done l : List String) (rest : Cells)
    → copy_from (length done) l (set_before done (spare l rest))
      ≡ some (set_before (done ++ l) rest)
unfolding copy_from
copy_from-set done [] rest =
    ap (λ (x : List String). some (set_before x rest)) (sym (append_nil done))
copy_from-set done (p ∷ l) rest =
    ap (λ (o : Option Cells). and_then o (λ w. copy_from (length done + 1) l w))
      (write-set done (some p) none (spare l rest))
    ∙ (ap (λ (n : ℕ). copy_from n l (set_before done (some (some p) ∷ spare l rest)))
          (length-snoc done p)
        ∙ (ap (copy_from (length (done ++ (p ∷ []))) l) (set_before-snoc done p (spare l rest))
            ∙ (copy_from-set (done ++ (p ∷ [])) l rest
                ∙ ap (λ (x : List String). some (set_before x rest)) (append_assoc done p l))))

cells_for : (a : List String) (n : ℕ) → new_cells (length a + n) ≡ spare a (new_cells n)
cells_for [] n = let e : 0 + n ≡ n = omega arith in ap new_cells e
cells_for (x ∷ a) n =
    let e : suc (length a) + n ≡ suc (length a + n) = omega arith in
    ap new_cells e ∙ ap (◌∷◌ none) (cells_for a n)

all_cells :
    (a b : List String) → new_cells (length a + length b + 2 + 1) ≡ spare a (spare b (new_cells 3))
all_cells a b =
    let e : length a + length b + 2 + 1 ≡ length a + (length b + 3) = omega arith in
    ap new_cells e ∙ (cells_for a (length b + 3) ∙ ap (spare a) (cells_for b 3))

-- The two loops and the two writes at the end.
desktop_dirs-cells :
    (a b : List String) (saved : Option String)
    → desktop_dirs a b saved ≡ some (set_before (a ++ b) (some saved ∷ some none ∷ none ∷ []))
unfolding desktop_dirs
desktop_dirs-cells a b saved =
    let three = new_cells 3 in
    let n : length a + length b ≡ length (a ++ b) = sym (length-append a b) in
    let m : length a + length b + 1 ≡ suc (length (a ++ b)) = omega (arith, n) in
    let first : copy_from 0 a (new_cells (length a + length b + 2 + 1))
        ≡ some (set_before a (spare b three)) =
      ap (copy_from 0 a) (all_cells a b) ∙ copy_from-set [] a (spare b three) in
    let second : copy_from (length a) b (set_before a (spare b three))
        ≡ some (set_before (a ++ b) three) =
      copy_from-set a b three in
    let third : write (length a + length b) saved (set_before (a ++ b) three)
        ≡ some (set_before (a ++ b) (some saved ∷ none ∷ none ∷ [])) =
      ap (λ (i : ℕ). write i saved (set_before (a ++ b) three)) n
      ∙ write-set (a ++ b) saved none (none ∷ none ∷ []) in
    let fourth : write (length a + length b + 1) none
          (set_before (a ++ b) (some saved ∷ none ∷ none ∷ []))
        ≡ some (set_before (a ++ b) (some saved ∷ some none ∷ none ∷ [])) =
      ap (λ (i : ℕ). write i none (set_before (a ++ b) (some saved ∷ none ∷ none ∷ []))) m
      ∙ write-next (a ++ b) none (some saved) none (none ∷ []) in
    rw (first, second, third, fourth)

read_vector-set :
    (l : List String) (rest : Cells) → read_vector (set_before l (some none ∷ rest)) ≡ some l
unfolding read_vector
read_vector-set [] rest = refl
read_vector-set (p ∷ l) rest = rw (read_vector-set l rest)

-- What is read of a vector that ends with the saved session.
abbrev pub saved_list : Option String → List String
saved_list none = []
saved_list (some p) = p ∷ []

ending :
    (a : List String) (saved : Option String)
    → read_vector (set_before a (some saved ∷ some none ∷ none ∷ [])) ≡ some (a ++ saved_list saved)
ending a none = read_vector-set a _ ∙ ap some (sym (append_nil a))
ending a (some p) = ap read_vector (set_before-snoc a p _) ∙ read_vector-set (a ++ (p ∷ [])) _

-- In any environment, and with or without a directory of the saved session: no write is outside the
-- array, and the vector that is read from it is the directories of applications, then those of
-- autostart files, then that of the saved session if there is one.
pub get_desktop_dirs_lem :
    (env : Environment) (saved : Option String)
    → and_then (get_desktop_dirs env saved) read_vector
      ≡ some ((get_app_dirs env ++ get_autostart_dirs env) ++ saved_list saved)
unfolding get_desktop_dirs
get_desktop_dirs_lem env saved =
    let a = get_app_dirs env in
    let b = get_autostart_dirs env in
    ap (λ (o : Option Cells). and_then o read_vector) (desktop_dirs-cells a b saved)
    ∙ ending (a ++ b) saved
