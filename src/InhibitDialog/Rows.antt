-- ===== src/InhibitDialog/Rows.antt =====
-- What each handler of the dialog keeps (mate-session/gsm-inhibit-dialog.c).
use mate_session_manager.Base.{
  ℕ, suc, ◌≡◌, refl, sym, ap, ◌∙◌, Bool, true, false, ◌||◌, some, List, [], ◌∷◌, length, is_nil,
  is_some, if◌then◌else◌, ◌==◌, ==_iff, nat_eq, arith, Bool-cases, inl, inr,
}
use mathlib.Core.Path.{subst}
use mate_session_manager.Inhibitor.{Inhibitor}
use mate_session_manager.Store.{Store, Signal, added, removed}
use mate_session_manager.Store
use mate_session_manager.Store.Laws.{HasDistinctKeys}
use mate_session_manager.Manager.Types.{LogoutAction, InhibitResponse}
use mate_session_manager.InhibitDialog.{
  Row, InhibitDialog, Desktop, Response, answers, lock_screen, on_response, find_inhibitor,
  remove_row, row_of, add_inhibitor, update_dialog_text, on_store_inhibitor_added,
  on_store_inhibitor_removed, respond_if_empty, model_has_one_entry,
}
use mate_session_manager.InhibitDialog.Listing.{
  RowsDiffer, KeyedById, find_inhibitor-remove_row, remove_row-RowsDiffer,
}

-- A dialog that has not answered lists a row for exactly the inhibitors of the store, and has one; a
-- dialog that is done has answered once.
abbrev pub Lists : List Row → List (ℕ × Inhibitor) → Type 0
Lists rows objects = (k : ℕ) → find_inhibitor k rows ≡ is_some (Store.lookup_in k objects)

abbrev pub Waits : Bool → List Row → List (ℕ × Inhibitor) → ℕ → Type 0
Waits true rows objects count = count ≡ 1
Waits false rows objects count =
    (count ≡ 0) × (is_nil rows ≡ false) × RowsDiffer rows × Lists rows objects

pub record IsFaithful (s : Store ℕ Inhibitor) (d : InhibitDialog) : Type 0 where
  pub distinct : HasDistinctKeys s.objects
  pub keyed : KeyedById s.objects
  pub waits : Waits d.is_done d.rows s.objects (length d.delivered)

pub insert_in-KeyedById :
    (i : Inhibitor) (l : List (ℕ × Inhibitor)) → KeyedById l → KeyedById (Store.insert_in i.id i l)
unfolding Store.insert_in
insert_in-KeyedById i [] h = (refl, tt)
insert_in-KeyedById i ((k, j) ∷ l) h = elim (Bool-cases (k == i.id)) [
  | inl e ↦ rw e (sym ((==_iff k i.id).0 e), h.1)
  | inr e ↦ rw e (h.0, insert_in-KeyedById i l (h.1))
]

pub remove_in-KeyedById :
    (id : ℕ) (l : List (ℕ × Inhibitor)) → KeyedById l → KeyedById (Store.remove_in id l)
unfolding Store.remove_in
remove_in-KeyedById id [] h = tt
remove_in-KeyedById id ((k, j) ∷ l) h = elim (Bool-cases (k == id)) [
  | inl e ↦ rw e (h.1)
  | inr e ↦ rw e (h.0, remove_in-KeyedById id l (h.1))
]

-- The inhibitor that is found has the identifier.
pub lookup_in-id :
    (k : ℕ) (l : List (ℕ × Inhibitor))
    → KeyedById l
    → is_some (Store.lookup_in k l) ≡ true
    → (i : Inhibitor) × (Store.lookup_in k l ≡ some i) × (i.id ≡ k)
unfolding Store.lookup_in
lookup_in-id k [] h e = cc
lookup_in-id k ((j, i) ∷ l) h e = elim (Bool-cases (j == k)) [
  | inl q ↦
      (i, ap (λ (b : Bool). if b then some i else Store.lookup_in k l) q, h.0 ∙ (==_iff j k).0 q)
  | inr q ↦
      let (i', f, g) =
        lookup_in-id k l (h.1)
          (subst (λ (b : Bool). is_some (if b then some i else Store.lookup_in k l) ≡ true) q e) in
      (i', ap (λ (b : Bool). if b then some i else Store.lookup_in k l) q ∙ f, g)
]

-- A row in front.
pub find_inhibitor-row :
    (k : Desktop) (i : Inhibitor) (j : ℕ) (rows : List Row)
    → find_inhibitor j (row_of k (some i) ∷ rows) ≡ (i.id == j) || find_inhibitor j rows
unfolding find_inhibitor
find_inhibitor-row k i j rows = ground arith

-- A row that is added for an inhibitor which is found under its identifier.
added-Lists :
    (k : Desktop) (i : Inhibitor) (id : ℕ) (rows : List Row) (before now : List (ℕ × Inhibitor))
    → i.id ≡ id
    → ((j : ℕ) → is_some (Store.lookup_in j now) ≡ (id == j) || is_some (Store.lookup_in j before))
    → Lists rows before
    → Lists (row_of k (some i) ∷ rows) now
added-Lists k i id rows before now e found lists j =
    find_inhibitor-row k i j rows ∙ rw (e, lists j, found j)

listed-Lists :
    (id : ℕ) (rows : List Row) (before now : List (ℕ × Inhibitor))
    → find_inhibitor id rows ≡ true
    → ((j : ℕ) → is_some (Store.lookup_in j now) ≡ (id == j) || is_some (Store.lookup_in j before))
    → Lists rows before
    → Lists rows now
listed-Lists id rows before now here found lists j = elim (Bool-cases (id == j)) [
  | inl e ↦
      rw (found j, e) (subst (λ (x : ℕ). find_inhibitor x rows ≡ true) ((==_iff id j).0 e) here)
  | inr e ↦ rw (found j, e) (lists j)
]

-- The fields of a dialog, of which these matter.
abbrev pub dialog_of :
    LogoutAction → Bool → List Row → Bool → ℕ → List InhibitResponse → InhibitDialog
dialog_of action is_done rows one_entry locked delivered = record {
  action = action;
  is_done = is_done;
  rows = rows;
  one_entry = one_entry;
  locked = locked;
  delivered = delivered;
}

abbrev pub DialogWaits : InhibitDialog → List (ℕ × Inhibitor) → Type 0
DialogWaits d objects = Waits d.is_done d.rows objects (length d.delivered)

-- A signal is heard when the store is already in its new state.
pub added_waits :
    (k : Desktop) (s : Store ℕ Inhibitor) (id : ℕ) (action : LogoutAction) (is_done : Bool)
    (rows : List Row) (one_entry : Bool) (locked : ℕ) (delivered : List InhibitResponse)
    (before : List (ℕ × Inhibitor))
    → KeyedById s.objects
    → ((j : ℕ)
        → is_some (Store.lookup_in j s.objects) ≡ (id == j) || is_some (Store.lookup_in j before))
    → DialogWaits (dialog_of action is_done rows one_entry locked delivered) before
    → DialogWaits
        (on_store_inhibitor_added k s id (dialog_of action is_done rows one_entry locked delivered))
        s.objects
unfolding on_store_inhibitor_added Store.lookup add_inhibitor update_dialog_text
added_waits k s id action true rows one_entry locked delivered before keyed found h = h
added_waits k s id action false rows one_entry locked delivered before keyed found
      (none_yet, some_row, differ, lists) =
    elim (Bool-cases (find_inhibitor id rows)) [
      | inl here ↦
          rw here
            (none_yet, some_row, differ, listed-Lists id rows before s.objects here found lists)
      | inr fresh ↦
          let (i, e, q) = lookup_in-id id s.objects keyed (found id ∙ rw ((==_iff id id).1 refl)) in
          rw (fresh, e)
            (
              none_yet,
              refl,
              (rw (q, fresh), differ),
              added-Lists k i id rows before s.objects q found lists,
            )
    ]

pub removed-Lists :
    (id : ℕ) (rows : List Row) (before now : List (ℕ × Inhibitor))
    → RowsDiffer rows
    → ((j : ℕ)
        → is_some (Store.lookup_in j now)
          ≡ (if id == j then false else is_some (Store.lookup_in j before)))
    → Lists rows before
    → Lists (remove_row id rows) now
removed-Lists id rows before now differ found lists j =
    find_inhibitor-remove_row id j rows differ ∙ rw (lists j, found j)

-- A dialog whose row was taken out answers if it was the last.
respond_waits :
    (action : LogoutAction) (rows shown : List Row) (one_entry : Bool) (locked : ℕ)
    (delivered : List InhibitResponse) (now : List (ℕ × Inhibitor))
    → rows ≡ shown
    → length delivered ≡ 0
    → RowsDiffer rows
    → Lists rows now
    → DialogWaits
        (respond_if_empty shown (dialog_of action false rows one_entry locked delivered))
        now
unfolding on_response
respond_waits action rows [] one_entry locked delivered now e none_yet differ lists =
    ap suc none_yet
respond_waits action rows (r ∷ rest) one_entry locked delivered now e none_yet differ lists =
    (none_yet, ap is_nil e, differ, lists)

pub removed_waits :
    (id : ℕ) (action : LogoutAction) (is_done : Bool) (rows : List Row) (one_entry : Bool)
    (locked : ℕ) (delivered : List InhibitResponse) (before now : List (ℕ × Inhibitor))
    → is_some (Store.lookup_in id before) ≡ true
    → ((j : ℕ)
        → is_some (Store.lookup_in j now)
          ≡ (if id == j then false else is_some (Store.lookup_in j before)))
    → DialogWaits (dialog_of action is_done rows one_entry locked delivered) before
    → DialogWaits
        (on_store_inhibitor_removed id (dialog_of action is_done rows one_entry locked delivered))
        now
unfolding on_store_inhibitor_removed update_dialog_text
removed_waits id action true rows one_entry locked delivered before now there found h = h
removed_waits id action false rows one_entry locked delivered before now there found
      (none_yet, some_row, differ, lists) =
    rw (lists id ∙ there) (
      respond_waits action (remove_row id rows) (remove_row id rows)
        (model_has_one_entry (remove_row id rows)) locked delivered now refl none_yet
        (remove_row-RowsDiffer id rows differ)
        (removed-Lists id rows before now differ found lists))

pub response_waits :
    (r : Response) (action : LogoutAction) (is_done : Bool) (rows : List Row) (one_entry : Bool)
    (locked : ℕ) (delivered : List InhibitResponse) (objects : List (ℕ × Inhibitor))
    → DialogWaits (dialog_of action is_done rows one_entry locked delivered) objects
    → DialogWaits (on_response r (dialog_of action is_done rows one_entry locked delivered)) objects
unfolding on_response
response_waits r action true rows one_entry locked delivered objects h = h
response_waits lock_screen action false rows one_entry locked delivered objects h = h
response_waits (answers a) action false rows one_entry locked delivered objects h = ap suc (h.0)
