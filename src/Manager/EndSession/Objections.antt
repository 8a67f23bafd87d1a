-- ===== src/Manager/EndSession/Objections.antt =====
-- A client that objects to the end of the session, or does not reply, holds it up
-- (mate-session/gsm-manager.c).
use mate_session_manager.Base.{
  nat_eq, ℕ, ◌≡◌, refl, Bool, true, false, ◌||◌, Option, none, List, [], ◌∷◌, arith, is_nil,
  is_some, slist_remove, Option-cases, inl, inr, String,
}
use mate_session_manager.Store
use mate_session_manager.Client.{Client, dbus_name, inhibitor_app_id}
use mate_session_manager.Inhibitor.{Inhibitor, flag_logout, has_flag, new_for_client}
use mate_session_manager.Manager.Types.{Manager, World, Phase, query_end_session}
use mate_session_manager.Manager.Queries.{is_logout_inhibited, is_inhibited_by}
use mate_session_manager.Manager.Inhibit.Flags.{is_force, add_inhibitor_lem, admitted-is_inhibited}
use mate_session_manager.Manager.EndSession.{
  Answer, generate_unique_cookie, add_jit_inhibitor, show_inhibit_dialog,
  query_end_session_complete, inhibit_silent_client, inhibit_for_silent,
  on_query_end_session_timeout, note_answer, go_on, take_answer, handle_client_end_session_response,
  reason_or_default,
}
use mate_session_manager.Manager.EndSession.Rest.{
  add_jit_inhibitor-KeepsControl, inhibit_for_silent-KeepsControl,
  inhibit_silent_client-KeepsControl,
}

add_jit-is_inhibited :
    (w : World) (c : Client) (reason : Option String) (m : Manager)
    → m.inhibitors.locked ≡ false
    → let n = add_jit_inhibitor w c reason m in
      (is_logout_inhibited n ≡ true) × (n.inhibitors.locked ≡ false)
unfolding add_jit_inhibitor is_logout_inhibited has_flag new_for_client
add_jit-is_inhibited w c reason m h =
    let drawn : Manager = record m { draws = (generate_unique_cookie w m).1 } in
    let i : Inhibitor =
      new_for_client m.inhibitor_serial c.id (inhibitor_app_id c) flag_logout
        (reason_or_default reason) (dbus_name c) (generate_unique_cookie w m).0 in
    ((admitted-is_inhibited i flag_logout drawn h refl).0, (add_inhibitor_lem i drawn h).1)

complete_inhibited :
    (w : World) (m : Manager)
    → is_logout_inhibited m ≡ true
    → let n = query_end_session_complete w m in
      (n.phase ≡ m.phase)
      × (is_some n.inhibit_dialog ≡ true)
      × (is_logout_inhibited n ≡ true)
      × (n.query_clients ≡ m.query_clients)
unfolding query_end_session_complete show_inhibit_dialog is_logout_inhibited is_inhibited_by
complete_inhibited w m h = ground arith

go_on_inhibited :
    (w : World) (id : ℕ) (do_last : Bool) (p : Phase) (m : Manager)
    → p ≡ query_end_session
    → is_logout_inhibited m ≡ true
    → let n = go_on w id do_last p m in
      (n.phase ≡ m.phase)
      × (is_logout_inhibited n ≡ true)
      × (is_nil n.query_clients ≡ true → is_some n.inhibit_dialog ≡ true)
      × (n.query_clients ≡ m.query_clients)
unfolding go_on
go_on_inhibited w id do_last query_end_session m e h = ground (arith, complete_inhibited w m h)
go_on_inhibited w id do_last _ m e h = cc

-- In the query phase, unless the logout is forced or the store of inhibitors is locked, an answer
-- of a client that is not well and does not cancel leaves the session in the query phase, with
-- logout inhibited; and if all clients have now answered the user is asked.
pub objection_holds :
    (w : World) (c : Client) (a : Answer) (m : Manager)
    → m.phase ≡ query_end_session
    → is_force m.logout_mode ≡ false
    → m.inhibitors.locked ≡ false
    → a.is_ok ≡ false
    → a.cancels ≡ false
    → let n = handle_client_end_session_response w c a m in
      (n.phase ≡ query_end_session)
      × (is_logout_inhibited n ≡ true)
      × (is_nil n.query_clients ≡ true → is_some n.inhibit_dialog ≡ true)
      × (n.query_clients ≡ slist_remove c.id m.query_clients)
unfolding handle_client_end_session_response take_answer note_answer
objection_holds w c a m p f l o x =
    let asked : Manager = record m { query_clients = slist_remove c.id m.query_clients } in
    let j : Manager = add_jit_inhibitor w c a.reason asked in
    let (k, d) = add_jit_inhibitor-KeepsControl w c a.reason asked in
    ground (
      arith,
      k,
      add_jit-is_inhibited w c a.reason asked l,
      λ (e : j.phase ≡ query_end_session).
          λ (i : is_logout_inhibited j ≡ true). go_on_inhibited w c.id a.do_last j.phase j e i,
    )

-- Whether one of the clients is still in the store.
abbrev pub any_known : List ℕ → Store.Store ℕ Client → Bool
any_known [] s = false
any_known (id ∷ r) s = is_some (Store.lookup id s) || any_known r s

inhibit_silent_client_lem :
    (w : World) (id : ℕ) (m : Manager)
    → m.inhibitors.locked ≡ false
    → is_force m.logout_mode ≡ false
    → let n = inhibit_silent_client w id m in
      (n.inhibitors.locked ≡ false)
      × ((is_logout_inhibited m || is_some (Store.lookup id m.clients)) ≡ true
          → is_logout_inhibited n ≡ true)
unfolding inhibit_silent_client
inhibit_silent_client_lem w id m l f = elim (Option-cases (Store.lookup id m.clients)) [
  | inl e ↦ ground arith
  | inr (c, e) ↦ ground (arith, add_jit-is_inhibited w c none m l)
]

inhibit_for_silent_lem :
    (w : World) (ids : List ℕ) (m : Manager)
    → m.inhibitors.locked ≡ false
    → is_force m.logout_mode ≡ false
    → (is_logout_inhibited m || any_known ids m.clients) ≡ true
    → is_logout_inhibited (inhibit_for_silent w ids m) ≡ true
unfolding inhibit_for_silent
inhibit_for_silent_lem w [] m l f h = ground arith
inhibit_for_silent_lem w (id ∷ r) m l f h =
    let n : Manager = inhibit_silent_client w id m in
    let (k, d) = inhibit_silent_client-KeepsControl w id m in
    let (l', i) = inhibit_silent_client_lem w id m l f in
    inhibit_for_silent_lem w r n l' (ground (arith, k.logout_mode)) (ground (arith, k.clients, i))

-- Unless the logout is forced or the store of inhibitors is locked, the timer of the query leaves
-- the session in its phase if a client of the store has not replied: logout
-- is inhibited, and the user is asked.
pub silence_holds :
    (w : World) (m : Manager)
    → m.inhibitors.locked ≡ false
    → is_force m.logout_mode ≡ false
    → any_known m.query_clients m.clients ≡ true
    → let n = on_query_end_session_timeout w m in
      (n.phase ≡ m.phase)
      × (is_logout_inhibited n ≡ true)
      × (is_some n.inhibit_dialog ≡ true)
      × (n.query_clients ≡ [])
unfolding on_query_end_session_timeout is_logout_inhibited is_inhibited_by
silence_holds w m l f h =
    let stopped : Manager = record m { query_timeout = false } in
    let n : Manager = inhibit_for_silent w m.query_clients stopped in
    let (k, d) = inhibit_for_silent-KeepsControl w m.query_clients stopped in
    ground (
      arith,
      k.phase,
      complete_inhibited w (record n { query_clients = [] })
          (inhibit_for_silent_lem w m.query_clients stopped l f (ground (arith, h))),
    )
