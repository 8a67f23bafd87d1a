-- ===== src/InhibitDialog/Start.antt =====
-- The dialog as it is made, with a row for each inhibitor (mate-session/gsm-inhibit-dialog.c).
use mate_session_manager.Base.{
  ℕ, ◌≡◌, refl, sym, ap, ◌∙◌, Bool, true, false, not, ◌&&◌, ◌||◌, Option, some, List, [], ◌∷◌,
  length, is_nil, is_some, if◌then◌else◌, ◌==◌, ==_iff, nat_eq, arith, Bool-cases, inl, inr,
}
use mate_session_manager.Inhibitor.{Inhibitor}
use mate_session_manager.Store.{Store, Signal, added, removed}
use mate_session_manager.Store
use mate_session_manager.Store.Laws.{HasDistinctKeys, has_key, lookup_in_absent}
use mate_session_manager.Manager.Types.{LogoutAction, InhibitResponse}
use mate_session_manager.InhibitDialog.{
  Row, InhibitDialog, Desktop, find_inhibitor, row_of, add_inhibitor, update_dialog_text, add_each,
  populate_model, new, at_first,
}
use mate_session_manager.InhibitDialog.Listing.{RowsDiffer, KeyedById}
use mate_session_manager.InhibitDialog.Rows.{Lists, Waits, IsFaithful, find_inhibitor-row}

-- The rows that the dialog begins with.
abbrev rows_of : Desktop → List (ℕ × Inhibitor) → List Row → List Row
rows_of k [] rows = rows
rows_of k ((id, i) ∷ l) rows = rows_of k l (row_of k (some i) ∷ rows)

add_each_lem :
    (k : Desktop) (l : List (ℕ × Inhibitor)) (d : InhibitDialog)
    → add_each k l d ≡ record d { rows = rows_of k l d.rows }
unfolding add_inhibitor
add_each_lem k [] d = refl
add_each_lem k ((id, i) ∷ l) d = add_each_lem k l (record d { rows = row_of k (some i) ∷ d.rows })

first_only :
    (id : ℕ) (l : List (ℕ × Inhibitor))
    → has_key id l ≡ false
    → (j : ℕ) → (id == j) && is_some (Store.lookup_in j l) ≡ false
first_only id l h j = elim (Bool-cases (id == j)) [
  | inl e ↦ rw (e, sym ((==_iff id j).0 e), lookup_in_absent id l h)
  | inr e ↦ rw e
]

first_new :
    (id : ℕ) (i : Inhibitor) (o : Option Inhibitor) (row : Bool)
    → is_some (if id == id then some i else o) && row ≡ false
    → not row ≡ true
first_new id i o row h = ground arith

still_apart :
    (same : Bool) (i : Inhibitor) (o : Option Inhibitor) (row : Bool)
    → same && is_some o ≡ false
    → is_some (if same then some i else o) && row ≡ false
    → is_some o && (same || row) ≡ false
still_apart same i o row h a = ground arith

one_more :
    (same : Bool) (i : Inhibitor) (o : Option Inhibitor) (row : Bool)
    → is_some o || (same || row) ≡ is_some (if same then some i else o) || row
one_more same i o row = ground arith

rows_of-Lists :
    (k : Desktop) (l : List (ℕ × Inhibitor)) (rows : List Row)
    → HasDistinctKeys l
    → KeyedById l
    → RowsDiffer rows
    → ((j : ℕ) → is_some (Store.lookup_in j l) && find_inhibitor j rows ≡ false)
    → RowsDiffer (rows_of k l rows)
      × ((j : ℕ)
          → find_inhibitor j (rows_of k l rows)
            ≡ is_some (Store.lookup_in j l) || find_inhibitor j rows)
unfolding Store.lookup_in
rows_of-Lists k [] rows distinct keyed differ apart = (differ, λ j. refl)
rows_of-Lists k ((id, i) ∷ l) rows distinct keyed differ apart =
    let here = first_only id l (distinct.0) in
    let row = λ (j : ℕ). find_inhibitor-row k i j rows ∙ rw (keyed.0) in
    let (differ', lists) =
      rows_of-Lists k l (row_of k (some i) ∷ rows) (distinct.1) (keyed.1)
        (
          rw (keyed.0) (first_new id i (Store.lookup_in id l) (find_inhibitor id rows) (apart id)),
          differ,
        )
        (λ j. rw (row j) (
          still_apart (id == j) i (Store.lookup_in j l) (find_inhibitor j rows) (here j)
            (apart j))) in
    (
      differ',
      λ j.
          lists j ∙ rw (row j) (one_more (id == j) i (Store.lookup_in j l) (find_inhibitor j rows)),
    )

and_false : (b : Bool) → b && false ≡ false
and_false true = refl
and_false false = refl

or_false : (b : Bool) → b || false ≡ b
or_false true = refl
or_false false = refl

is_nil-rows_of :
    (k : Desktop) (l : List (ℕ × Inhibitor)) (r : Row) (rows : List Row)
    → is_nil (rows_of k l (r ∷ rows)) ≡ false
is_nil-rows_of k [] r rows = refl
is_nil-rows_of k ((id, i) ∷ l) r rows = is_nil-rows_of k l (row_of k (some i)) (r ∷ rows)

abbrev pub store_of : List (ℕ × Inhibitor) → Bool → Store ℕ Inhibitor
store_of objects locked = record { objects = objects; locked = locked }

new_lem :
    (k : Desktop) (l : List (ℕ × Inhibitor)) (locked : Bool) (action : LogoutAction)
    → let d = new k (store_of l locked) action in
      (d.rows ≡ rows_of k l []) × (d.is_done ≡ false) × (d.delivered ≡ [])
unfolding new populate_model update_dialog_text
new_lem k l locked action = (
  ap (λ (d : InhibitDialog). d.rows) (add_each_lem k l (at_first action)),
  ap (λ (d : InhibitDialog). d.is_done) (add_each_lem k l (at_first action)),
  ap (λ (d : InhibitDialog). d.delivered) (add_each_lem k l (at_first action)),
)

Waits-at :
    (done : Bool) (rows shown : List Row) (l : List (ℕ × Inhibitor))
    (delivered : List InhibitResponse)
    → done ≡ false
    → rows ≡ shown
    → delivered ≡ []
    → is_nil shown ≡ false
    → RowsDiffer shown
    → Lists shown l
    → Waits done rows l (length delivered)
Waits-at true rows shown l delivered d e n some_row differ lists = cc
Waits-at false rows shown l delivered d e n some_row differ lists =
    rw (e, n) (refl, some_row, differ, lists)

pub new-IsFaithful :
    (k : Desktop) (id : ℕ) (i : Inhibitor) (l : List (ℕ × Inhibitor)) (locked : Bool)
    (action : LogoutAction)
    → HasDistinctKeys ((id, i) ∷ l)
    → KeyedById ((id, i) ∷ l)
    → IsFaithful (store_of ((id, i) ∷ l) locked) (new k (store_of ((id, i) ∷ l) locked) action)
unfolding find_inhibitor
new-IsFaithful k id i l locked action distinct keyed =
    let objects : List (ℕ × Inhibitor) = (id, i) ∷ l in
    let d : InhibitDialog = new k (store_of objects locked) action in
    let (differ, lists) =
      rows_of-Lists k objects [] distinct keyed tt
        (λ j. and_false (is_some (Store.lookup_in j objects))) in
    let (rows, open_yet, quiet) = new_lem k objects locked action in
    record {
      distinct = distinct;
      keyed = keyed;
      waits =
          Waits-at d.is_done d.rows (rows_of k objects []) objects d.delivered open_yet rows quiet
            (is_nil-rows_of k l (row_of k (some i)) []) differ
            (λ j. lists j ∙ or_false (is_some (Store.lookup_in j objects)));
    }
