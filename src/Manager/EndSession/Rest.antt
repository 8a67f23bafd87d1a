-- ===== src/Manager/EndSession/Rest.antt =====
-- The answers of the clients, and the timer of the query, lead from rest to rest.
use mate_session_manager.Base.{
  ℕ, ◌≡◌, refl, Bool, true, false, Option, none, List, [], ◌∷◌, arith, Bool-cases, inl, inr, String,
  is_nil, if◌then◌else◌, ◌||◌, not, slist_remove, nat_eq, Option-cases,
}
use mate_session_manager.Store
use mate_session_manager.Client.{Client}
use mate_session_manager.Inhibitor.{Inhibitor, has_client_id, next_inhibitor_serial}
use mate_session_manager.Manager.Queries.{is_logout_inhibited}
use mate_session_manager.Manager.Phases.{end_phase, do_phase_end_session_part_2, end_session_flags}
use mate_session_manager.Manager.Phases.Frame.{
  end_last_clients-IsFramed, end_last_clients-KeepsApps,
}
use mate_session_manager.Manager.Phases.Rest.{IsAtRest}
use mate_session_manager.Manager.Phases.Settle.{end_phase-IsAtRest}
use mate_session_manager.Manager.Dialogs.Rest.{
  KeepsControl, KeepsControl-IsAtRest, hear-KeepsControl, IsAtRest-CanEnd,
  cancel_end_session-IsAtRest, remove_inhibitors-IsAtRest,
}
use mate_session_manager.Manager.Types.{
  Manager, World, Phase, query_end_session, end_session, is_ending, LogoutAction,
}
use mate_session_manager.Manager.EndSession.{
  add_inhibitor, add_jit_inhibitor, generate_unique_cookie, dialog_action, show_inhibit_dialog,
  inhibit_silent_client, query_end_session_complete, inhibit_for_silent,
  on_query_end_session_timeout, Answer, note_answer, go_on, take_answer,
  handle_client_end_session_response,
}

pub add_inhibitor-KeepsControl :
    (i : Inhibitor) (m : Manager)
    → KeepsControl m (add_inhibitor i m) × ((add_inhibitor i m).inhibit_dialog ≡ m.inhibit_dialog)
unfolding add_inhibitor
add_inhibitor-KeepsControl i m =
    let (store, done, signals) = Store.add i.id i m.inhibitors in
    ground (
      arith,
      hear-KeepsControl signals (record m {
        inhibitors = store;
        inhibitor_serial = next_inhibitor_serial m.inhibitor_serial;
      }),
    )

pub add_jit_inhibitor-KeepsControl :
    (w : World) (c : Client) (reason : Option String) (m : Manager)
    → KeepsControl m (add_jit_inhibitor w c reason m)
      × ((add_jit_inhibitor w c reason m).inhibit_dialog ≡ m.inhibit_dialog)
unfolding add_jit_inhibitor
add_jit_inhibitor-KeepsControl w c reason m =
    let (k, d) =
      add_inhibitor-KeepsControl _ (record m { draws = (generate_unique_cookie w m).1 }) in
    (ground (arith, k), d)

show_inhibit_dialog-IsAtRest :
    (a : LogoutAction) (m : Manager)
    → is_ending m.phase ≡ true
    → IsAtRest m
    → IsAtRest (show_inhibit_dialog a m)
unfolding show_inhibit_dialog
show_inhibit_dialog-IsAtRest a m e r = elim (Option-cases m.inhibit_dialog) [
  | inl d ↦ rw (d, show_inhibit_dialog) (ground arith)
  | inr (b, d) ↦ rw (d, show_inhibit_dialog) (ground arith)
]

query_end_session_complete-IsAtRest :
    (w : World) (m : Manager)
    → is_ending m.phase ≡ true
    → IsAtRest m
    → IsAtRest (query_end_session_complete w m)
unfolding query_end_session_complete
query_end_session_complete-IsAtRest w m e r =
    let n : Manager = record m { query_timeout = false } in
    let q : IsAtRest n = ground arith in
    ground (
      arith,
      show_inhibit_dialog-IsAtRest (dialog_action n.logout_type) n e q,
      end_phase-IsAtRest w n (IsAtRest-CanEnd n q (ground arith) (ground arith)),
    )

pub inhibit_silent_client-KeepsControl :
    (w : World) (id : ℕ) (m : Manager)
    → KeepsControl m (inhibit_silent_client w id m)
      × ((inhibit_silent_client w id m).inhibit_dialog ≡ m.inhibit_dialog)
unfolding inhibit_silent_client
inhibit_silent_client-KeepsControl w id m = elim (Option-cases (Store.lookup id m.clients)) [
  | inl e ↦ ground arith
  | inr (c, e) ↦ ground (arith, add_jit_inhibitor-KeepsControl w c none m)
]

pub inhibit_for_silent-KeepsControl :
    (w : World) (l : List ℕ) (m : Manager)
    → KeepsControl m (inhibit_for_silent w l m)
      × ((inhibit_for_silent w l m).inhibit_dialog ≡ m.inhibit_dialog)
unfolding inhibit_for_silent
inhibit_for_silent-KeepsControl w [] m = ground arith
inhibit_for_silent-KeepsControl w (id ∷ r) m = ground (
  arith,
  inhibit_silent_client-KeepsControl w id m,
  inhibit_for_silent-KeepsControl w r (inhibit_silent_client w id m),
)

-- The timer of the query fires only while it is set.
pub on_query_end_session_timeout-IsAtRest :
    (w : World) (m : Manager)
    → m.query_timeout ≡ true
    → IsAtRest m
    → IsAtRest (on_query_end_session_timeout w m)
unfolding on_query_end_session_timeout
on_query_end_session_timeout-IsAtRest w m t r =
    let stopped : Manager = record m { query_timeout = false } in
    let (k, d) = inhibit_for_silent-KeepsControl w m.query_clients stopped in
    let n : Manager = inhibit_for_silent w m.query_clients stopped in
    query_end_session_complete-IsAtRest w (record n { query_clients = [] }) (ground (arith, k, r))
      (ground (arith, k, d, r))

note_answer-IsAtRest :
    (w : World) (c : Client) (a : Answer) (m : Manager)
    → IsAtRest m
    → IsAtRest (note_answer w c a m)
unfolding note_answer
note_answer-IsAtRest w c a m r =
    let (k, d) = add_jit_inhibitor-KeepsControl w c a.reason m in
    let q : IsAtRest (add_jit_inhibitor w c a.reason m) = KeepsControl-IsAtRest {m = m} k d r in
    ground (arith, q, remove_inhibitors-IsAtRest w (has_client_id c.id) m r)

do_phase_end_session_part_2-IsAtRest :
    (w : World) (m : Manager)
    → m.phase ≡ end_session
    → IsAtRest m
    → IsAtRest (do_phase_end_session_part_2 w m)
unfolding do_phase_end_session_part_2
do_phase_end_session_part_2-IsAtRest w m e r =
    let flags : ℕ = end_session_flags w.auto_save m.logout_mode true in
    elim (Bool-cases (is_nil m.next_query_clients)) [
      | inl b ↦ rw b (end_phase-IsAtRest w m (IsAtRest-CanEnd m r (ground arith) (ground arith)))
      | inr b ↦ rw b (
          ground (
            arith,
            end_last_clients-IsFramed w flags m.next_query_clients m,
            end_last_clients-KeepsApps w flags m.next_query_clients m,
          ))
    ]

ending-go_on-IsAtRest :
    (w : World) (m : Manager)
    → m.phase ≡ end_session
    → IsAtRest m
    → IsAtRest (
        if not (is_nil m.query_clients) || is_logout_inhibited m
        then m
        else if is_nil m.next_query_clients
        then end_phase w m
        else do_phase_end_session_part_2 w m)
ending-go_on-IsAtRest w m e r = ground (
  arith,
  end_phase-IsAtRest w m (IsAtRest-CanEnd m r (ground arith) (ground arith)),
  do_phase_end_session_part_2-IsAtRest w m e r,
)

go_on-IsAtRest :
    (w : World) (id : ℕ) (do_last : Bool) (p : Phase) (m : Manager)
    → m.phase ≡ p
    → IsAtRest m
    → IsAtRest (go_on w id do_last p m)
unfolding go_on
go_on-IsAtRest w id do_last query_end_session m e r =
    ground (arith, query_end_session_complete-IsAtRest w m (ground arith) r)
go_on-IsAtRest w id true end_session m e r =
    ending-go_on-IsAtRest w (record m { next_query_clients = id ∷ m.next_query_clients }) e
      (ground arith)
go_on-IsAtRest w id false end_session m e r = ending-go_on-IsAtRest w m e r
go_on-IsAtRest w id do_last _ m e r = r

-- Every answer of a client, expected or not, leads from rest to rest.
pub handle_client_end_session_response-IsAtRest :
    (w : World) (c : Client) (a : Answer) (m : Manager)
    → IsAtRest m
    → IsAtRest (handle_client_end_session_response w c a m)
unfolding handle_client_end_session_response take_answer
handle_client_end_session_response-IsAtRest w c a m r =
    let asked : Manager = record m { query_clients = slist_remove c.id m.query_clients } in
    let n : Manager = note_answer w c a asked in
    ground (
      arith,
      cancel_end_session-IsAtRest w m r,
      go_on-IsAtRest w c.id a.do_last n.phase n refl
          (note_answer-IsAtRest w c a asked (ground arith)),
    )
