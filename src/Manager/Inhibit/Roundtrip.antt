-- ===== src/Manager/Inhibit/Roundtrip.antt =====
-- `Inhibit` and `Uninhibit` undo each other (mate-session/gsm-manager.c).
use mate_session_manager.Base.{
  nat_eq, ℕ, ◌+◌, ◌<◌, ◌≡◌, refl, ap, ◌∙◌, true, false, Option, none, some, List, [], ◌∷◌, String,
  arith, Bool-cases, inl, inr, is_some,
}
use mate_session_manager.Store
use mate_session_manager.Store.{Store}
use mate_session_manager.Store.Search.{find_in-insert_in_only, remove-inserted}
use mate_session_manager.Inhibitor.{Inhibitor, find_by_cookie, new}
use mate_session_manager.Manager.Types.{Manager, World}
use mate_session_manager.Manager.Dialogs.{hear, remove_inhibitor, inhibit_dialog_response}
use mate_session_manager.Manager.Dialogs.Rest.{KeepsControl, KeepsControl-trans, hear-KeepsControl}
use mate_session_manager.Manager.EndSession.{generate_unique_cookie, add_inhibitor}
use mate_session_manager.Manager.EndSession.Rest.{add_inhibitor-KeepsControl}
use mate_session_manager.Manager.EndSession.Cookies.{is_used, generate_unique_cookie-fresh}
use mate_session_manager.Manager.Clients.{ok}
use mate_session_manager.Manager.Inhibit.{inhibit, uninhibit, admit_inhibitor}
use mate_session_manager.Manager.Inhibit.Flags.{
  is_refused, add_inhibitor_lem, IsWatchful, hear_removed_lem,
}

pub hear-inhibitors :
    (l : List (Store.Signal ℕ)) (m : Manager) → (hear l m).inhibitors ≡ m.inhibitors
unfolding hear
hear-inhibitors [] m = refl
hear-inhibitors (Store.added id ∷ r) m = hear-inhibitors r _
hear-inhibitors (Store.removed id ∷ r) m = hear-inhibitors r _

-- With no dialog open, the removal of an inhibitor changes the store and nothing that decides on
-- the state of the session.
remove_inhibitor_lem :
    (w : World) (id : ℕ) (m : Manager)
    → m.inhibit_dialog ≡ none
    → ((remove_inhibitor w id m).inhibitors ≡ (Store.remove id m.inhibitors).0)
      × KeepsControl m (remove_inhibitor w id m)
unfolding remove_inhibitor inhibit_dialog_response
remove_inhibitor_lem w id m d =
    let (store, done, signals) = Store.remove id m.inhibitors in
    let x : Manager = record m { inhibitors = store } in
    ground (arith, hear-KeepsControl signals x, hear-inhibitors signals x)

-- A manager that is watchful stays so.
remove_inhibitor-IsWatchful :
    (w : World) (id : ℕ) (m : Manager)
    → m.inhibit_dialog ≡ none
    → IsWatchful m
    → IsWatchful (remove_inhibitor w id m)
unfolding remove_inhibitor inhibit_dialog_response Store.remove hear
remove_inhibitor-IsWatchful w id m d h =
    elim (Bool-cases (is_some (Store.lookup id m.inhibitors))) [
      | inr e ↦ rw e h
      | inl e ↦
          let x : Manager = record m {
            inhibitors = record (m.inhibitors) {
              objects = Store.remove_in id m.inhibitors.objects;
            };
          } in
          ground (arith, e, hear_removed_lem id x, (hear-KeepsControl (Store.removed id ∷ []) x).1)
    ]

find_by_cookie_self : (i : Inhibitor) → find_by_cookie i.cookie i.id i ≡ true
unfolding find_by_cookie
find_by_cookie_self i = ground arith

-- The inhibitor that is added last, under a new identifier and with a new cookie, is the one that
-- its cookie finds.
uninhibit_added :
    (w : World) (i : Inhibitor) (m : Manager)
    → m.inhibitors.locked ≡ false
    → Store.lookup i.id m.inhibitors ≡ none
    → is_used i.cookie m.inhibitors ≡ false
    → let n = add_inhibitor i m in uninhibit w i.cookie n ≡ (remove_inhibitor w i.id n, ok tt)
unfolding uninhibit Store.find Store.lookup
uninhibit_added w i m l s c =
    let n : Manager = add_inhibitor i m in
    let found : Store.find_in (find_by_cookie i.cookie) n.inhibitors.objects ≡ some (i.id, i) =
      rw (add_inhibitor_lem i m l).0 (
        find_in-insert_in_only (find_by_cookie i.cookie) i.id i m.inhibitors.objects s
          (ground (arith, c)) (find_by_cookie_self i)) in
    ground (arith, found)

-- What was just put in and is taken out again.
removed_added :
    (w : World) (i : Inhibitor) (m : Manager)
    → m.inhibitors.locked ≡ false
    → m.inhibit_dialog ≡ none
    → Store.lookup i.id m.inhibitors ≡ none
    → (remove_inhibitor w i.id (add_inhibitor i m)).inhibitors.objects ≡ m.inhibitors.objects
      × KeepsControl m (remove_inhibitor w i.id (add_inhibitor i m))
      × IsWatchful (remove_inhibitor w i.id (add_inhibitor i m))
unfolding Store.remove Store.lookup
removed_added w i m l d s =
    let n : Manager = add_inhibitor i m in
    let (k, same) = add_inhibitor-KeepsControl i m in
    let (there, unlocked, watch) = add_inhibitor_lem i m l in
    let (e, k') = remove_inhibitor_lem w i.id n (ground (arith, same)) in
    (
      ap Store.objects e ∙ remove-inserted i.id i m.inhibitors.objects n.inhibitors there s,
      KeepsControl-trans k k',
      remove_inhibitor-IsWatchful w i.id n (ground (arith, same)) watch,
    )

-- Unless the call is refused, the store is locked or a dialog is open, and if a new cookie can be
-- drawn and the next identifier is free: `Uninhibit` with the cookie that `Inhibit` replied
-- succeeds, the same inhibitors are there as before, nothing that decides on the state
-- of the session has changed, and the presence watches for idleness exactly if idleness is not
-- inhibited.
pub uninhibit-inhibit :
    (w v : World) (app_id : Option String) (xid : ℕ) (reason : Option String) (flags : ℕ)
    (sender : String) (j : ℕ) (m : Manager)
    → is_refused app_id reason flags m ≡ false
    → m.inhibitors.locked ≡ false
    → m.inhibit_dialog ≡ none
    → Store.lookup m.inhibitor_serial m.inhibitors ≡ none
    → j < w.rounds
    → is_used (w.random (m.draws + j)) m.inhibitors ≡ false
    → let (n, reply) = inhibit w app_id xid reason flags sender m in
      let cookie = (generate_unique_cookie w m).0 in
      let (o, done) = uninhibit v cookie n in
      (reply ≡ ok cookie)
      × (done ≡ ok tt)
      × (o.inhibitors.objects ≡ m.inhibitors.objects)
      × KeepsControl m o
      × IsWatchful o
unfolding inhibit admit_inhibitor new
uninhibit-inhibit w v app_id xid reason flags sender j m f l d s h u =
    let (cookie, draws) = generate_unique_cookie w m in
    let i : Inhibitor = new m.inhibitor_serial app_id xid flags reason (some sender) cookie in
    let drawn : Manager = record m { draws = draws } in
    let (fresh, bound, more) = generate_unique_cookie-fresh w m j h u in
    let (same, k, watch) = removed_added v i drawn l d s in
    ground (arith, uninhibit_added v i drawn l s fresh, same, k, watch)
