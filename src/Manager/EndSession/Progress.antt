-- ===== src/Manager/EndSession/Progress.antt =====
-- The query comes to its end when all clients are well (mate-session/gsm-manager.c).
use mate_session_manager.Base.{
  ℕ, ◌+◌, ◌≡◌, refl, ap, Bool, true, false, ◌&&◌, none, List, [], ◌∷◌, arith, slist_remove,
  contains, ltb,
}
use mate_session_manager.Store
use mate_session_manager.Store.{Store}
use mate_session_manager.Client.{Client}
use mate_session_manager.Inhibitor.{Inhibitor, has_client_id, has_flag, flag_logout}
use mate_session_manager.Manager.Types.{
  Manager, World, Phase, query_end_session, end_session, client_end,
}
use mate_session_manager.Manager.Queries.{is_logout_inhibited, is_inhibited_by}
use mate_session_manager.Manager.Phases.{
  end_phase, do_phase_end_session, end_session_flags, reset_phase,
}
use mate_session_manager.Manager.Phases.Asked.{
  telling, is_client, end_clients_lem, end_clients-effects, end_query, each_gets, forceful, saving,
  flags_lem,
}
use mate_session_manager.Manager.Phases.Frame.{end_clients-IsFramed}
use mate_session_manager.Manager.Dialogs.{remove_inhibitors, inhibit_dialog_response}
use mate_session_manager.Manager.Dialogs.Rest.{KeepsControl, hear-KeepsControl}
use mate_session_manager.Manager.EndSession.{
  Answer, query_end_session_complete, note_answer, go_on, take_answer,
  handle_client_end_session_response,
}
use mate_session_manager.Manager.Inhibit.Roundtrip.{hear-inhibitors}

find_in-kept_absent {ℓ κ} :
    {K : Type ℓ} {A : Type κ} (p q : K → A → Bool) (l : List (K × A))
    → Store.find_in q l ≡ none
    → Store.find_in q (Store.kept p l) ≡ none
unfolding Store.find_in Store.kept
find_in-kept_absent p q [] h = refl
find_in-kept_absent p q ((k, a) ∷ r) h = ground (arith, find_in-kept_absent p q r)

-- With no dialog open, the removal of inhibitors changes the store and nothing that decides on the
-- state of the session, and it makes nothing inhibited.
remove_inhibitors_lem :
    (w : World) (p : ℕ → Inhibitor → Bool) (m : Manager)
    → m.inhibit_dialog ≡ none
    → is_logout_inhibited m ≡ false
    → KeepsControl m (remove_inhibitors w p m)
      × (is_logout_inhibited (remove_inhibitors w p m) ≡ false)
unfolding remove_inhibitors inhibit_dialog_response is_logout_inhibited is_inhibited_by
    Store.foreach_remove Store.find
remove_inhibitors_lem w p m d h =
    let (store, signals) = Store.foreach_remove p m.inhibitors in
    let x : Manager = record m { inhibitors = store } in
    ground (
      arith,
      hear-KeepsControl signals x,
      hear-inhibitors signals x,
      find_in-kept_absent p (has_flag flag_logout) m.inhibitors.objects,
    )

-- The clients are told, and waited for.
told_lem :
    (w : World) (id : ℕ) (m : Manager)
    → ltb 0 (Store.size m.clients) ≡ true
    → let n = do_phase_end_session (end_phase w) w (telling m) in
      (n.phase ≡ end_session)
      × (n.phase_timeout ≡ true)
      × (n.logout_type ≡ m.logout_type)
      × (n.effects
          ≡ each_gets
              (λ j. client_end j (forceful m.logout_mode + saving w.auto_save))
              m.clients.objects
              m.effects)
      × (contains id n.query_clients ≡ (is_client id m.clients.objects && w.end_sent id))
unfolding do_phase_end_session reset_phase
told_lem w id m h =
    let x : Manager = record (telling m) { phase_timeout = true } in
    let flags : ℕ = end_session_flags w.auto_save m.logout_mode false in
    ground (
      arith,
      flags_lem w.auto_save m.logout_mode,
      end_clients-effects w flags m.clients.objects x,
      end_clients-IsFramed w flags m.clients.objects x,
      end_clients_lem w flags id m.clients.objects x,
    )

complete_free :
    (w : World) (id : ℕ) (m : Manager)
    → m.phase ≡ query_end_session
    → is_logout_inhibited m ≡ false
    → ltb 0 (Store.size m.clients) ≡ true
    → let n = query_end_session_complete w m in
      (n.phase ≡ end_session)
      × (n.phase_timeout ≡ true)
      × (n.logout_type ≡ m.logout_type)
      × (n.effects
          ≡ each_gets
              (λ j. client_end j (forceful m.logout_mode + saving w.auto_save))
              m.clients.objects
              m.effects)
      × (contains id n.query_clients ≡ (is_client id m.clients.objects && w.end_sent id))
unfolding query_end_session_complete is_logout_inhibited is_inhibited_by
complete_free w id m p h s =
    let x : Manager = record m { query_timeout = false } in
    ground (arith, end_query w x p, told_lem w id x s)

go_on_free :
    (w : World) (c id : ℕ) (do_last : Bool) (p : Phase) (m : Manager)
    → p ≡ query_end_session
    → m.phase ≡ query_end_session
    → m.query_clients ≡ []
    → is_logout_inhibited m ≡ false
    → ltb 0 (Store.size m.clients) ≡ true
    → let n = go_on w c do_last p m in
      (n.phase ≡ end_session)
      × (n.phase_timeout ≡ true)
      × (n.logout_type ≡ m.logout_type)
      × (n.effects
          ≡ each_gets
              (λ j. client_end j (forceful m.logout_mode + saving w.auto_save))
              m.clients.objects
              m.effects)
      × (contains id n.query_clients ≡ (is_client id m.clients.objects && w.end_sent id))
unfolding go_on
go_on_free w c id do_last query_end_session m e p q h s = ground (arith, complete_free w id m p h s)
go_on_free w c id do_last _ m e p q h s = cc

-- When the last client that is waited for in the query phase is well, with no inhibitor of logout, no
-- dialog and some client in the store, the session goes on to the phase END_SESSION: the
-- inhibitors of this client are removed, and then every client is told to end, in the order of the
-- store, as forceful exactly if the mode is FORCE and to save exactly if the settings say so, and
-- nothing else is done; every client that could be told, and no other, is waited for, with the
-- timer of the phase set, and the type of the logout is kept.
pub all_well_ends :
    (w : World) (c : Client) (a : Answer) (id : ℕ) (m : Manager)
    → m.phase ≡ query_end_session
    → a.is_ok ≡ true
    → a.cancels ≡ false
    → m.inhibit_dialog ≡ none
    → is_logout_inhibited m ≡ false
    → slist_remove c.id m.query_clients ≡ []
    → ltb 0 (Store.size m.clients) ≡ true
    → let left = remove_inhibitors w (has_client_id c.id) (record m { query_clients = [] }) in
      let n = handle_client_end_session_response w c a m in
      (n.phase ≡ end_session)
      × (n.phase_timeout ≡ true)
      × (n.logout_type ≡ m.logout_type)
      × (n.effects
          ≡ each_gets
              (λ j. client_end j (forceful m.logout_mode + saving w.auto_save))
              m.clients.objects
              left.effects)
      × (contains id n.query_clients ≡ (is_client id m.clients.objects && w.end_sent id))
unfolding handle_client_end_session_response take_answer note_answer is_logout_inhibited
all_well_ends w c a id m p o x d h q s =
    let asked : Manager = record m { query_clients = slist_remove c.id m.query_clients } in
    let n : Manager = remove_inhibitors w (has_client_id c.id) asked in
    let (k, free) = remove_inhibitors_lem w (has_client_id c.id) asked d h in
    ground (
      arith,
      k.logout_type,
      k.clients,
      k.logout_mode,
      ap (λ l. (remove_inhibitors w (has_client_id c.id) (record m { query_clients = l })).effects)
          q,
      go_on_free w c.id id a.do_last n.phase n (ground (arith, k.phase)) (ground (arith, k.phase))
          (ground (arith, k.query_clients)) free (ground (arith, k.clients)),
    )
