-- ===== src/Manager/Dialogs.antt =====
-- The inhibit dialog's answers, and the end of an attempt to end the session
-- (mate-session/gsm-manager.c); with what the dialog does when its last row is taken away
-- (mate-session/gsm-inhibit-dialog.c, `on_store_inhibitor_removed`).
pub mod Rest
use mate_session_manager.Base.{
  ℕ, Bool, true, false, not, Option, none, some, List, [], ◌∷◌, if◌then◌else◌, is_nil, ◌==◌, nat_eq,
}
use mate_session_manager.Store
use mate_session_manager.Store.{Signal, added, removed}
use mate_session_manager.Client.{Client}
use mate_session_manager.Inhibitor.{Inhibitor, is_jit}
use mate_session_manager.Manager.Queries.{update_idle}
use mate_session_manager.Manager.Phases.{end_phase, start_phase}
use mate_session_manager.Manager.Types.{
  Manager, World, running, is_ending, normal, force, no_logout, LogoutAction, to_logout,
  to_switch_user, to_shutdown, to_reboot, to_hibernate, to_sleep, InhibitResponse, cancel, nothing,
  delete_event, accept, emit, Effect, switch_user, perhaps_lock, attempt_suspend, attempt_hibernate,
  client_cancel, mdm_action, mdm_none, inhibitor_added, inhibitor_removed,
}

-- `manager_switch_user`: which greeter is asked is left to the world.
unfoldable pub manager_switch_user : World → Manager → Manager
manager_switch_user w m = if w.user_switch_disabled then m else emit switch_user m

unfoldable pub manager_attempt_hibernate : World → Manager → Manager
manager_attempt_hibernate w m =
    if w.logind_running
    then emit attempt_hibernate (emit perhaps_lock m)
    else if w.can_hibernate
    then emit attempt_hibernate (emit perhaps_lock m)
    else m

unfoldable pub manager_attempt_suspend : World → Manager → Manager
manager_attempt_suspend w m =
    if w.logind_running
    then emit attempt_suspend (emit perhaps_lock m)
    else if w.can_suspend
    then emit attempt_suspend (emit perhaps_lock m)
    else m

unfoldable pub do_inhibit_dialog_action : World → LogoutAction → Manager → Manager
unfolding manager_switch_user manager_attempt_hibernate manager_attempt_suspend
do_inhibit_dialog_action w to_switch_user m = manager_switch_user w m
do_inhibit_dialog_action w to_hibernate m = manager_attempt_hibernate w m
do_inhibit_dialog_action w to_sleep m = manager_attempt_suspend w m
do_inhibit_dialog_action w to_shutdown m = end_phase w (record m { logout_mode = force })
do_inhibit_dialog_action w to_reboot m = end_phase w (record m { logout_mode = force })
do_inhibit_dialog_action w to_logout m = end_phase w (record m { logout_mode = force })

-- The manager's handlers of the signals of the store of inhibitors, `on_store_inhibitor_added` and
-- `on_store_inhibitor_removed`.
unfoldable pub hear : List (Signal ℕ) → Manager → Manager
unfolding update_idle
hear [] m = m
hear (added id ∷ r) m = hear r (update_idle (emit (inhibitor_added id) m))
hear (removed id ∷ r) m = hear r (update_idle (emit (inhibitor_removed id) m))

-- `_client_cancel_end_session` for each client.
unfoldable pub cancel_clients : List (ℕ × Client) → Manager → Manager
cancel_clients [] m = m
cancel_clients ((_, c) ∷ r) m = cancel_clients r (emit (client_cancel c.id) m)

-- The dialog is destroyed before the JIT inhibitors go, so it does not see them go.
unfoldable pub drop_jit_inhibitors : Manager → Manager
unfolding hear
drop_jit_inhibitors m =
    let (store, signals) = Store.foreach_remove is_jit m.inhibitors in
    hear signals (record m { inhibitors = store; inhibit_dialog = none })

unfoldable pub cancel_end_session : World → Manager → Manager
unfolding drop_jit_inhibitors cancel_clients
cancel_end_session w m =
    if not (is_ending m.phase)
    then m
    else let n = cancel_clients m.clients.objects (drop_jit_inhibitors m) in
      start_phase w (
        emit (mdm_action mdm_none)
          (record n { phase = running; logout_mode = normal; logout_type = no_logout }))

-- An answer to the dialog about `action`.
unfoldable pub answer : World → InhibitResponse → LogoutAction → Manager → Manager
unfolding cancel_end_session do_inhibit_dialog_action
answer w accept action m = do_inhibit_dialog_action w action m
answer w cancel to_logout m = cancel_end_session w m
answer w cancel to_shutdown m = cancel_end_session w m
answer w cancel to_reboot m = cancel_end_session w m
answer w cancel _ m = m
answer w nothing to_logout m = cancel_end_session w m
answer w nothing to_shutdown m = cancel_end_session w m
answer w nothing to_reboot m = cancel_end_session w m
answer w nothing _ m = m
answer w delete_event to_logout m = cancel_end_session w m
answer w delete_event to_shutdown m = cancel_end_session w m
answer w delete_event to_reboot m = cancel_end_session w m
answer w delete_event _ m = m

-- `inhibit_dialog_response`: the dialog goes first. An answer comes from a dialog that is open.
unfoldable pub inhibit_dialog_response : World → InhibitResponse → Manager → Manager
unfolding answer
inhibit_dialog_response w r m = elim m.inhibit_dialog [
  | none ↦ m
  | some action ↦ answer w r action (record m { inhibit_dialog = none })
]

-- The inhibitors that pass a test are removed. The manager hears each signal before the dialog
-- does; the dialog lists the inhibitors of the store, and when the last one goes it answers
-- ACCEPT by itself.
unfoldable pub remove_inhibitors : World → (ℕ → Inhibitor → Bool) → Manager → Manager
unfolding hear inhibit_dialog_response
remove_inhibitors w p m =
    let (store, signals) = Store.foreach_remove p m.inhibitors in
    let n = hear signals (record m { inhibitors = store }) in
    if is_nil signals
    then n
    else if Store.size store == 0
    then inhibit_dialog_response w accept n
    else n

-- The same for one inhibitor, by its identifier (`gsm_store_remove`).
unfoldable pub remove_inhibitor : World → ℕ → Manager → Manager
unfolding hear inhibit_dialog_response
remove_inhibitor w id m =
    let (store, done, signals) = Store.remove id m.inhibitors in
    let n = hear signals (record m { inhibitors = store }) in
    if is_nil signals
    then n
    else if Store.size store == 0
    then inhibit_dialog_response w accept n
    else n
