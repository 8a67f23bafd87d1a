-- ===== src/InhibitDialog/Listing.antt =====
-- The rows of the dialog and the inhibitors of the store (mate-session/gsm-inhibit-dialog.c).
use mate_session_manager.Base.{
  ℕ, ◌≡◌, sym, Bool, true, false, not, ◌&&◌, Option, none, some, List, [], ◌∷◌, if◌then◌else◌, ◌==◌,
  ==_iff, nat_eq, arith, Bool-cases, inl, inr,
}
use mathlib.Core.Path.{subst}
use mate_session_manager.Inhibitor.{Inhibitor}
use mate_session_manager.InhibitDialog.{Row, is_id, find_inhibitor, remove_row}

-- Every row has an identifier, and they differ.
abbrev pub absent : Option ℕ → List Row → Bool
absent none rows = false
absent (some id) rows = not (find_inhibitor id rows)

abbrev pub RowsDiffer : List Row → Type 0
RowsDiffer [] = Unit {0}
RowsDiffer (r ∷ rows) = (absent r.id rows ≡ true) × RowsDiffer rows

-- Each inhibitor stands under its own identifier.
abbrev pub KeyedById : List (ℕ × Inhibitor) → Type 0
KeyedById [] = Unit {0}
KeyedById ((k, i) ∷ l) = (i.id ≡ k) × KeyedById l

is_id-absent :
    (id : ℕ) (o : Option ℕ) (rows : List Row)
    → is_id id o ≡ true
    → absent o rows ≡ true
    → find_inhibitor id rows ≡ false
is_id-absent id none rows h a = cc
is_id-absent id (some k) rows h a =
    let e : k ≡ id = (==_iff k id).0 h in
    let b : not (find_inhibitor id rows) ≡ true = rw (sym e) a in ground arith

is_id-eq : (id j : ℕ) (o : Option ℕ) → is_id id o ≡ true → is_id j o ≡ (id == j)
is_id-eq id j none h = cc
is_id-eq id j (some k) h = ground arith

first_gone :
    (id j : ℕ) (rows : List Row)
    → find_inhibitor id rows ≡ false
    → find_inhibitor j rows
      ≡ (if id == j then false else if id == j then true else find_inhibitor j rows)
first_gone id j rows a = elim (Bool-cases (id == j)) [
  | inl e ↦ rw e (subst (λ (k : ℕ). find_inhibitor k rows ≡ false) ((==_iff id j).0 e) a)
  | inr e ↦ rw e
]

other_stays : (id j : ℕ) (o : Option ℕ) → is_id id o ≡ false → is_id j o && (id == j) ≡ false
other_stays id j none h = ground arith
other_stays id j (some k) h = ground arith

pub find_inhibitor-remove_row :
    (id j : ℕ) (rows : List Row)
    → RowsDiffer rows
    → find_inhibitor j (remove_row id rows) ≡ (if id == j then false else find_inhibitor j rows)
unfolding find_inhibitor remove_row
find_inhibitor-remove_row id j [] h = ground arith
find_inhibitor-remove_row id j (r ∷ rows) h = elim (Bool-cases (is_id id r.id)) [
  | inl e ↦
      let a = is_id-absent id r.id rows e (h.0) in
      rw (e, is_id-eq id j r.id e) (first_gone id j rows a)
  | inr e ↦
      rw e (ground (arith, find_inhibitor-remove_row id j rows (h.1), other_stays id j r.id e))
]

absent-remove_row :
    (id : ℕ) (o : Option ℕ) (rows : List Row)
    → absent o rows ≡ true
    → absent o (remove_row id rows) ≡ true
unfolding find_inhibitor remove_row
absent-remove_row id none rows h = cc
absent-remove_row id (some j) [] h = h
absent-remove_row id (some j) (r ∷ rows) h = ground (arith, absent-remove_row id (some j) rows)

pub remove_row-RowsDiffer :
    (id : ℕ) (rows : List Row) → RowsDiffer rows → RowsDiffer (remove_row id rows)
unfolding find_inhibitor remove_row
remove_row-RowsDiffer id [] h = tt
remove_row-RowsDiffer id (r ∷ rows) h = elim (Bool-cases (is_id id r.id)) [
  | inl e ↦ rw e (h.1)
  | inr e ↦ rw e (absent-remove_row id r.id rows (h.0), remove_row-RowsDiffer id rows (h.1))
]
