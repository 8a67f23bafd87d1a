-- ===== src/InhibitDialog/History.antt =====
-- The dialog and the store of inhibitors, from its start to its answer (mate-session/gsm-inhibit-dialog.c).
use mate_session_manager.Base.{
  ℕ, ◌≡◌, refl, ap, ◌∙◌, Bool, true, false, ◌||◌, Option, none, some, List, [], ◌∷◌, length, is_nil,
  is_some, if◌then◌else◌, ◌==◌, ==_iff, nat_eq, arith, Bool-cases, inl, inr,
}
use mate_session_manager.Inhibitor.{Inhibitor}
use mate_session_manager.Store.{Store, Signal, added, removed}
use mate_session_manager.Store
use mate_session_manager.Store.Laws.{
  HasDistinctKeys, lookup_in-insert_in, lookup_in-remove_in, insert_in-HasDistinctKeys,
  remove_in-HasDistinctKeys,
}
use mate_session_manager.Manager.Types.{LogoutAction, InhibitResponse, accept}
use mate_session_manager.InhibitDialog.{
  Row, InhibitDialog, Desktop, Response, on_response, is_id, find_inhibitor, remove_row,
  model_has_one_entry, respond_if_empty, update_dialog_text, on_store_inhibitor_added,
  on_store_inhibitor_removed, new,
}
use mate_session_manager.InhibitDialog.Listing.{
  absent, RowsDiffer, KeyedById, remove_row-RowsDiffer,
}
use mate_session_manager.InhibitDialog.Rows.{
  Lists, Waits, IsFaithful, insert_in-KeyedById, remove_in-KeyedById, added_waits, removed_waits,
  response_waits, removed-Lists, dialog_of,
}
use mate_session_manager.InhibitDialog.Start.{store_of, new-IsFaithful}

-- What happens while a dialog is open.
pub data DialogEvent : Type 0 where
  inhibits : Inhibitor → DialogEvent
  goes : ℕ → DialogEvent
  responds : Response → DialogEvent

-- The dialog hears the signals of the store.
abbrev pub hear : Desktop → Store ℕ Inhibitor → List (Signal ℕ) → InhibitDialog → InhibitDialog
hear k s [] d = d
hear k s (added id ∷ l) d = hear k s l (on_store_inhibitor_added k s id d)
hear k s (removed id ∷ l) d = hear k s l (on_store_inhibitor_removed id d)

abbrev pub step :
    Desktop → DialogEvent → Store ℕ Inhibitor × InhibitDialog → Store ℕ Inhibitor × InhibitDialog
step k (inhibits i) (s, d) =
    let (now, done, signals) = Store.add i.id i s in (now, hear k now signals d)
step k (goes id) (s, d) =
    let (now, done, signals) = Store.remove id s in (now, hear k now signals d)
step k (responds r) (s, d) = (s, on_response r d)

abbrev pub run :
    Desktop
    → List DialogEvent
    → Store ℕ Inhibitor × InhibitDialog
    → Store ℕ Inhibitor × InhibitDialog
run k [] w = w
run k (e ∷ l) w = run k l (step k e w)

found_added :
    (i : Inhibitor) (objects : List (ℕ × Inhibitor)) (j : ℕ)
    → is_some (Store.lookup_in j (Store.insert_in i.id i objects))
      ≡ (i.id == j) || is_some (Store.lookup_in j objects)
found_added i objects j =
    ap (λ (o : Option Inhibitor). is_some o) (lookup_in-insert_in i.id j i objects)
    ∙ elim (Bool-cases (i.id == j)) [ inl e ↦ rw e | inr e ↦ rw e ]

found_removed :
    (id : ℕ) (objects : List (ℕ × Inhibitor)) (j : ℕ)
    → HasDistinctKeys objects
    → is_some (Store.lookup_in j (Store.remove_in id objects))
      ≡ (if id == j then false else is_some (Store.lookup_in j objects))
found_removed id objects j distinct =
    ap (λ (o : Option Inhibitor). is_some o) (lookup_in-remove_in id j objects distinct)
    ∙ elim (Bool-cases (id == j)) [ inl e ↦ rw e | inr e ↦ rw e ]

-- An inhibitor is added, unless the store is locked.
added-IsFaithful :
    (k : Desktop) (i : Inhibitor) (objects : List (ℕ × Inhibitor)) (locked : Bool)
    (d : InhibitDialog)
    → IsFaithful (record { objects = objects; locked = locked }) d
    → let (s', d') = step k (inhibits i) (record { objects = objects; locked = locked }, d) in
      IsFaithful s' d'
unfolding Store.add
added-IsFaithful k i objects true d f = f
added-IsFaithful k i objects false d f = record {
  distinct = insert_in-HasDistinctKeys i.id i objects f.distinct;
  keyed = insert_in-KeyedById i objects f.keyed;
  waits =
      added_waits k (record { objects = Store.insert_in i.id i objects; locked = false }) i.id
        d.action d.is_done d.rows d.one_entry d.locked d.delivered objects
        (insert_in-KeyedById i objects f.keyed) (found_added i objects) f.waits;
}

-- An inhibitor is removed, if there is one of the identifier.
removed-IsFaithful :
    (k : Desktop) (id : ℕ) (s : Store ℕ Inhibitor) (d : InhibitDialog)
    → IsFaithful s d
    → let (s', d') = step k (goes id) (s, d) in IsFaithful s' d'
unfolding Store.remove Store.lookup
removed-IsFaithful k id s d f = elim (Bool-cases (is_some (Store.lookup_in id s.objects))) [
  | inl e ↦ rw e (record {
    distinct = remove_in-HasDistinctKeys id s.objects f.distinct;
    keyed = remove_in-KeyedById id s.objects f.keyed;
    waits =
        removed_waits id d.action d.is_done d.rows d.one_entry d.locked d.delivered s.objects
          (Store.remove_in id s.objects) e (λ j. found_removed id s.objects j f.distinct) f.waits;
  })
  | inr e ↦ rw e f
]

step-IsFaithful :
    (k : Desktop) (e : DialogEvent) (s : Store ℕ Inhibitor) (d : InhibitDialog)
    → IsFaithful s d
    → let (s', d') = step k e (s, d) in IsFaithful s' d'
step-IsFaithful k (inhibits i) s d f = added-IsFaithful k i s.objects s.locked d f
step-IsFaithful k (goes id) s d f = removed-IsFaithful k id s d f
step-IsFaithful k (responds r) s d f = record {
  distinct = f.distinct;
  keyed = f.keyed;
  waits =
      response_waits r d.action d.is_done d.rows d.one_entry d.locked d.delivered s.objects f.waits;
}

run-IsFaithful :
    (k : Desktop) (l : List DialogEvent) (s : Store ℕ Inhibitor) (d : InhibitDialog)
    → IsFaithful s d
    → let (s', d') = run k l (s, d) in IsFaithful s' d'
run-IsFaithful k [] s d f = f
run-IsFaithful k (e ∷ l) s d f =
    let (s', d') = step k e (s, d) in run-IsFaithful k l s' d' (step-IsFaithful k e s d f)

-- A dialog is made over a store of inhibitors that is not empty, in which each stands under its own
-- identifier and none twice. After any list of events (inhibitors that come, if the store is not
-- locked, or go, and what the user presses): while the dialog has not answered, its rows are
-- those of exactly the inhibitors in the store, of which there is one; and once it has, it
-- has given one answer and no more, whatever was pressed or went afterwards.
pub dialog_history-IsFaithful :
    (k : Desktop) (id : ℕ) (i : Inhibitor) (l : List (ℕ × Inhibitor)) (locked : Bool)
    (action : LogoutAction) (events : List DialogEvent)
    → HasDistinctKeys ((id, i) ∷ l)
    → KeyedById ((id, i) ∷ l)
    → let s = store_of ((id, i) ∷ l) locked in
      let (s', d') = run k events (s, new k s action) in IsFaithful s' d'
dialog_history-IsFaithful k id i l locked action events distinct keyed =
    run-IsFaithful k events (store_of ((id, i) ∷ l) locked)
      (new k (store_of ((id, i) ∷ l) locked) action)
      (new-IsFaithful k id i l locked action distinct keyed)

own_id : (o : Option ℕ) (rows : List Row) → absent o rows ≡ true → (id : ℕ) × (o ≡ some id)
own_id none rows h = cc
own_id (some id) rows h = (id, refl)

own_is_id : (id : ℕ) (o : Option ℕ) → o ≡ some id → is_id id o ≡ true
own_is_id id o e = rw (e, (==_iff id id).1 refl)

nil_iff :
    (rows : List Row) (objects : List (ℕ × Inhibitor))
    → RowsDiffer rows
    → Lists rows objects
    → is_nil rows ≡ is_nil objects
unfolding find_inhibitor Store.lookup_in
nil_iff [] [] differ lists = refl
nil_iff (r ∷ rows) ((k, i) ∷ l) differ lists = refl
nil_iff [] ((k, i) ∷ l) differ lists = ground (arith, lists k)
nil_iff (r ∷ rows) [] differ lists =
    let (id, e) = own_id r.id rows (differ.0) in ground (arith, lists id, own_is_id id r.id e)

answers_if_empty :
    (action : LogoutAction) (rows shown : List Row) (one_entry : Bool) (locked : ℕ)
    (delivered : List InhibitResponse)
    → (respond_if_empty shown (dialog_of action false rows one_entry locked delivered)).delivered
      ≡ (if is_nil shown then accept ∷ delivered else delivered)
unfolding on_response
answers_if_empty action rows [] one_entry locked delivered = refl
answers_if_empty action rows (r ∷ rest) one_entry locked delivered = refl

removal_answers :
    (id : ℕ) (action : LogoutAction) (is_done : Bool) (rows : List Row) (one_entry : Bool)
    (locked : ℕ) (delivered : List InhibitResponse) (before now : List (ℕ × Inhibitor))
    → is_done ≡ false
    → is_some (Store.lookup_in id before) ≡ true
    → ((j : ℕ)
        → is_some (Store.lookup_in j now)
          ≡ (if id == j then false else is_some (Store.lookup_in j before)))
    → Waits is_done rows before (length delivered)
    → (on_store_inhibitor_removed id
        (dialog_of action is_done rows one_entry locked delivered)).delivered
      ≡ (if is_nil now then accept ∷ delivered else delivered)
unfolding on_store_inhibitor_removed update_dialog_text
removal_answers id action true rows one_entry locked delivered before now d there found w = cc
removal_answers id action false rows one_entry locked delivered before now d there found
      (none_yet, some_row, differ, lists) =
    let e =
      nil_iff (remove_row id rows) now (remove_row-RowsDiffer id rows differ)
        (removed-Lists id rows before now differ found lists) in
    rw (lists id ∙ there) (
      answers_if_empty action (remove_row id rows) (remove_row id rows)
        (model_has_one_entry (remove_row id rows)) locked delivered
      ∙ ap (λ (b : Bool). if b then accept ∷ delivered else delivered) e)

-- A dialog that lists the inhibitors of its store, as it does after any history, and has not answered: when
-- an inhibitor of the store goes, the dialog accepts by itself if it was the last one, and else
-- answers nothing.
pub last_one-answers :
    (k : Desktop) (id : ℕ) (s : Store ℕ Inhibitor) (d : InhibitDialog)
    → IsFaithful s d
    → d.is_done ≡ false
    → is_some (Store.lookup id s) ≡ true
    → let (s', d') = step k (goes id) (s, d) in
      d'.delivered ≡ (if is_nil s'.objects then accept ∷ d.delivered else d.delivered)
unfolding Store.remove Store.lookup
last_one-answers k id s d f open_yet there = rw there (
    removal_answers id d.action d.is_done d.rows d.one_entry d.locked d.delivered s.objects
      (Store.remove_in id s.objects) open_yet there (λ j. found_removed id s.objects j f.distinct)
      f.waits)
