-- ===== src/Manager/EndSession.antt =====
-- How the manager asks its clients to end and hears their answers (mate-session/gsm-manager.c): the
-- query phase with its timer, "just in time" inhibitors for clients that object or do not reply,
-- and the answers in the two phases of the end.
pub mod Cookies
pub mod Objections
pub mod Progress
pub mod Reuse
pub mod Rest
use mate_session_manager.Base.{
  ℕ, zero, suc, ◌+◌, Bool, true, false, not, ◌&&◌, ◌||◌, String, Option, none, some, List, [], ◌∷◌,
  if◌then◌else◌, is_nil, is_some, ◌==◌, nat_eq, slist_remove, ltb,
}
use mate_session_manager.Store
use mate_session_manager.Store.{Store, Signal}
use mate_session_manager.Client.{Client, dbus_name, inhibitor_app_id}
use mate_session_manager.Inhibitor.{
  Inhibitor, flag_logout, find_by_cookie, has_client_id, new_for_client, next_inhibitor_serial,
}
use mate_session_manager.Manager.Queries.{is_logout_inhibited}
use mate_session_manager.Manager.Phases.{end_phase, do_phase_end_session_part_2}
use mate_session_manager.Manager.Dialogs.{hear, cancel_end_session, remove_inhibitors}
use mate_session_manager.Manager.Types.{
  Manager, World, Phase, startup, initialization, window_manager, panel, desktop, application,
  running, query_end_session, end_session, exit, is_ending, LogoutMode, normal, no_confirmation,
  force, LogoutType, no_logout, logout, reboot, reboot_interact, reboot_mdm, shutdown,
  shutdown_interact, shutdown_mdm, LogoutAction, to_logout, to_shutdown, to_reboot, emit,
  inhibit_dialog_shown, inhibit_dialog_presented,
}

-- The loop of `_generate_unique_cookie`, from the draw `i` on, for at most so many rounds: a cookie
-- that no inhibitor of the store has, and the number of the next draw.
unfoldable pub draw_cookie : ℕ → (ℕ → ℕ) → Store ℕ Inhibitor → ℕ → ℕ × ℕ
draw_cookie zero random s i = (random i, suc i)
draw_cookie (suc n) random s i =
    let rest = draw_cookie n random s (suc i) in
    if is_some (Store.find (find_by_cookie (random i)) s) then rest else (random i, suc i)

unfoldable pub generate_unique_cookie : World → Manager → ℕ × ℕ
unfolding draw_cookie
generate_unique_cookie w m = draw_cookie w.rounds w.random m.inhibitors m.draws

-- `gsm_store_add` of a new inhibitor, heard by the manager.
unfoldable pub add_inhibitor : Inhibitor → Manager → Manager
unfolding hear
add_inhibitor i m =
    let (store, done, signals) = Store.add i.id i m.inhibitors in
    hear signals
      (record m { inhibitors = store; inhibitor_serial = next_inhibitor_serial m.inhibitor_serial })

-- The text of a "just in time" inhibitor with no reason given.
abbrev pub not_responding : String
not_responding = "Not responding"

abbrev pub reason_or_default : Option String → Option String
reason_or_default none = some not_responding
reason_or_default (some r) = some r

-- An inhibitor of logout in the name of a client.
unfoldable pub add_jit_inhibitor : World → Client → Option String → Manager → Manager
unfolding generate_unique_cookie add_inhibitor
add_jit_inhibitor w c reason m =
    let (cookie, draws) = generate_unique_cookie w m in
    add_inhibitor
      (new_for_client m.inhibitor_serial c.id (inhibitor_app_id c) flag_logout
        (reason_or_default reason) (dbus_name c) cookie)
      (record m { draws = draws })

-- The action that the inhibit dialog is about; the default is reached only without a logout type.
unfoldable pub dialog_action : LogoutType → LogoutAction
dialog_action logout = to_logout
dialog_action reboot = to_reboot
dialog_action reboot_interact = to_reboot
dialog_action reboot_mdm = to_reboot
dialog_action shutdown = to_shutdown
dialog_action shutdown_interact = to_shutdown
dialog_action shutdown_mdm = to_shutdown
dialog_action no_logout = to_logout

unfoldable pub show_inhibit_dialog : LogoutAction → Manager → Manager
show_inhibit_dialog action m =
    if is_some m.inhibit_dialog
    then emit inhibit_dialog_presented m
    else emit (inhibit_dialog_shown action) (record m { inhibit_dialog = some action })

unfoldable pub query_end_session_complete : World → Manager → Manager
unfolding show_inhibit_dialog
query_end_session_complete w m =
    let n = record m { query_timeout = false } in
    if is_logout_inhibited n
    then show_inhibit_dialog (dialog_action n.logout_type) n
    else end_phase w n

-- One round of the loop of `_on_query_end_session_timeout`: nothing is added if logout is forced.
unfoldable pub inhibit_silent_client : World → ℕ → Manager → Manager
unfolding add_jit_inhibitor
inhibit_silent_client w id m = elim m.logout_mode [
  | force ↦ m
  | normal ↦ elim (Store.lookup id m.clients) [ none ↦ m | some c ↦ add_jit_inhibitor w c none m ]
  | no_confirmation ↦ elim (Store.lookup id m.clients) [
    | none ↦ m
    | some c ↦ add_jit_inhibitor w c none m
  ]
]

-- The loop, over the clients that have not replied.
unfoldable pub inhibit_for_silent : World → List ℕ → Manager → Manager
unfolding inhibit_silent_client
inhibit_for_silent w [] m = m
inhibit_for_silent w (id ∷ r) m = inhibit_for_silent w r (inhibit_silent_client w id m)

unfoldable pub on_query_end_session_timeout : World → Manager → Manager
unfolding inhibit_for_silent query_end_session_complete
on_query_end_session_timeout w m =
    let n = inhibit_for_silent w m.query_clients (record m { query_timeout = false }) in
    query_end_session_complete w (record n { query_clients = [] })

-- An answer of a client: all is well, it wants to be told last, it cancels, and why.
pub record Answer : Type 0 where
  pub is_ok : Bool
  pub do_last : Bool
  pub cancels : Bool
  pub reason : Option String

-- What an answer that does not cancel does to the inhibitors.
unfoldable pub note_answer : World → Client → Answer → Manager → Manager
unfolding add_jit_inhibitor
note_answer w c a m =
    if a.is_ok then remove_inhibitors w (has_client_id c.id) m else elim m.logout_mode [
      | force ↦ remove_inhibitors w (has_client_id c.id) m
      | normal ↦ add_jit_inhibitor w c a.reason m
      | no_confirmation ↦ add_jit_inhibitor w c a.reason m
    ]

-- The end of `_handle_client_end_session_response`: on to the next step when all have replied.
unfoldable pub go_on : World → ℕ → Bool → Phase → Manager → Manager
unfolding query_end_session_complete do_phase_end_session_part_2
go_on w id do_last query_end_session m =
    if is_nil m.query_clients then query_end_session_complete w m else m
go_on w id do_last end_session m =
    let n = if do_last then record m { next_query_clients = id ∷ m.next_query_clients } else m in
    if not (is_nil n.query_clients) || is_logout_inhibited n
    then n
    else if is_nil n.next_query_clients
    then end_phase w n
    else do_phase_end_session_part_2 w n
go_on w id do_last startup m = m
go_on w id do_last initialization m = m
go_on w id do_last window_manager m = m
go_on w id do_last panel m = m
go_on w id do_last desktop m = m
go_on w id do_last application m = m
go_on w id do_last running m = m
go_on w id do_last exit m = m

unfoldable pub take_answer : World → Client → Answer → Manager → Manager
unfolding note_answer go_on
take_answer w c a m =
    let n = note_answer w c a (record m { query_clients = slist_remove c.id m.query_clients }) in
    go_on w c.id a.do_last n.phase n

-- `_handle_client_end_session_response`.
unfoldable pub handle_client_end_session_response : World → Client → Answer → Manager → Manager
unfolding take_answer cancel_end_session
handle_client_end_session_response w c a m =
    if not (is_ending m.phase)
    then m
    else if a.cancels
    then cancel_end_session w m
    else take_answer w c a m
