-- ===== src/Manager/Requests.antt =====
-- What users and programs may ask of the session (mate-session/gsm-manager.c): to log out, shut
-- down, reboot, suspend, hibernate or switch users, with the dialogs and privileges in between.
pub mod Rest
pub mod Refusals
use mate_session_manager.Base.{
  ℕ, suc, ◌-◌, Bool, true, false, not, ◌&&◌, ◌||◌, List, [], ◌∷◌, Option, none, some, if◌then◌else◌,
  ◌==◌, ltb,
}
use mate_session_manager.Manager.Queries.{
  is_switch_user_inhibited, is_suspend_inhibited, is_session_running,
}
use mate_session_manager.Manager.Phases.{end_phase}
use mate_session_manager.Manager.Dialogs.{
  manager_switch_user, manager_attempt_hibernate, manager_attempt_suspend,
}
use mate_session_manager.Manager.EndSession.{show_inhibit_dialog}
use mate_session_manager.Manager.Clients.{Result, ok, err}
use mate_session_manager.Manager.Types.{
  Manager, World, is_ending, phase_num, LogoutMode, normal, no_confirmation, force, LogoutType,
  logout, reboot, reboot_interact, reboot_mdm, shutdown, shutdown_interact, shutdown_mdm, to_sleep,
  to_hibernate, to_switch_user, LogoutResponse, dismiss, ask_logout, ask_switch_user, ask_shutdown,
  ask_reboot, ask_hibernate, ask_sleep, Privilege, to_restart, to_stop, Error, not_in_running,
  not_in_initialization, locked_down, invalid_option, emit, restart_privileges, stop_privileges,
  logout_dialog_shown, shutdown_dialog_shown, dialog_aborted,
}

-- A handler that is waiting for "privileges-completed" is taken off.
unfoldable pub forget : Privilege → List Privilege → List Privilege
forget p [] = []
forget to_restart (to_restart ∷ r) = r
forget to_restart (to_stop ∷ r) = to_stop ∷ forget to_restart r
forget to_stop (to_stop ∷ r) = r
forget to_stop (to_restart ∷ r) = to_restart ∷ forget to_stop r

-- `request_reboot`: the privileges are asked for first. If that cannot be done the display manager
-- is to reboot; else the handler stays connected.
unfoldable pub request_reboot : World → Manager → Manager
request_reboot w m =
    let n = emit restart_privileges m in
    if w.gets_privileges
    then record n { privileges = to_restart ∷ n.privileges }
    else end_phase w (record n { logout_type = reboot_mdm })

unfoldable pub request_shutdown : World → Manager → Manager
request_shutdown w m =
    let n = emit stop_privileges m in
    if w.gets_privileges
    then record n { privileges = to_stop ∷ n.privileges }
    else end_phase w (record n { logout_type = shutdown_mdm })

-- `request_reboot_privileges_completed_systemd`, and the same for ConsoleKit.
unfoldable pub reboot_privileges_completed : World → Bool → Bool → Manager → Manager
unfolding forget
reboot_privileges_completed w success ask_later m =
    let n = record m { privileges = forget to_restart m.privileges } in
    if success
    then end_phase w (record n { logout_type = if ask_later then reboot_interact else reboot })
    else n

-- `request_shutdown_privileges_completed_systemd`, and the same for ConsoleKit.
unfoldable pub shutdown_privileges_completed : World → Bool → Bool → Manager → Manager
unfolding forget
shutdown_privileges_completed w success ask_later m =
    let n = record m { privileges = forget to_stop m.privileges } in
    if success
    then end_phase w (record n { logout_type = if ask_later then shutdown_interact else shutdown })
    else n

unfoldable pub request_suspend : World → Manager → Manager
request_suspend w m =
    if is_suspend_inhibited m then show_inhibit_dialog to_sleep m else manager_attempt_suspend w m

-- Hibernation goes by the inhibitors of suspension.
unfoldable pub request_hibernate : World → Manager → Manager
request_hibernate w m =
    if is_suspend_inhibited m
    then show_inhibit_dialog to_hibernate m
    else manager_attempt_hibernate w m

unfoldable pub request_switch_user : World → Manager → Manager
request_switch_user w m =
    if w.user_switch_disabled
    then m
    else if is_switch_user_inhibited m
    then show_inhibit_dialog to_switch_user m
    else manager_switch_user w m

unfoldable pub request_logout : World → LogoutMode → Manager → Manager
request_logout w mode m = end_phase w (record m { logout_mode = mode; logout_type = logout })

-- The `switch` of `logout_dialog_response`.
unfoldable pub do_logout_response : World → LogoutResponse → Manager → Manager
unfolding request_reboot request_shutdown request_suspend request_hibernate request_switch_user
    request_logout
do_logout_response w dismiss m = m
do_logout_response w ask_switch_user m = request_switch_user w m
do_logout_response w ask_hibernate m = request_hibernate w m
do_logout_response w ask_sleep m = request_suspend w m
do_logout_response w ask_shutdown m = request_shutdown w m
do_logout_response w ask_reboot m = request_reboot w m
do_logout_response w ask_logout m = request_logout w no_confirmation m

-- `logout_dialog_response`, of a dialog that is open. Unless the logout mode is NORMAL, its
-- `g_assert` aborts the program: `dialog_aborted`, and nothing else happens.
unfoldable pub logout_dialog_response : World → LogoutResponse → Manager → Manager
unfolding do_logout_response
logout_dialog_response w response m =
    let done = do_logout_response w response (record m { logout_dialog = false }) in
    elim m.logout_mode [
      | normal ↦ done
      | no_confirmation ↦ emit dialog_aborted m
      | force ↦ emit dialog_aborted m
    ]

unfoldable pub show_shutdown_dialog : Manager → Manager
show_shutdown_dialog m =
    if is_ending m.phase
    then m
    else emit shutdown_dialog_shown (record m { logout_mode = normal; logout_dialog = true })

unfoldable pub show_logout_dialog : Manager → Manager
show_logout_dialog m =
    if is_ending m.phase
    then m
    else emit logout_dialog_shown (record m { logout_mode = normal; logout_dialog = true })

-- `user_logout`.
unfoldable pub user_logout : World → LogoutMode → Manager → Manager
unfolding show_logout_dialog request_logout
user_logout w mode m = if is_ending m.phase then m else elim mode [
  | normal ↦ if w.logout_prompt then show_logout_dialog m else request_logout w normal m
  | no_confirmation ↦ request_logout w no_confirmation m
  | force ↦ request_logout w force m
]

-- The mode that a number of the D-Bus method `Logout` stands for.
unfoldable pub mode_of : ℕ → Option LogoutMode
mode_of n =
    if n == 0
    then some normal
    else if n == 1
    then some no_confirmation
    else if n == 2
    then some force
    else none

-- `gsm_manager_logout`.
unfoldable pub manager_logout : World → ℕ → Manager → Manager × Result (Unit {0})
unfolding user_logout mode_of
manager_logout w mode m =
    if not (is_session_running m)
    then (m, err not_in_running)
    else if w.log_out_disabled
    then (m, err locked_down)
    else elim (mode_of mode) [
      | none ↦ (m, err invalid_option)
      | some a ↦ (user_logout w a m, ok tt)
    ]

-- `gsm_manager_shutdown`.
unfoldable pub manager_shutdown : World → Manager → Manager × Result (Unit {0})
unfolding show_shutdown_dialog
manager_shutdown w m =
    if not (is_session_running m)
    then (m, err not_in_running)
    else if w.log_out_disabled
    then (m, err locked_down)
    else (show_shutdown_dialog m, ok tt)

-- `gsm_manager_request_shutdown`.
unfoldable pub manager_request_shutdown : World → Manager → Manager × Result (Unit {0})
unfolding request_shutdown
manager_request_shutdown w m =
    if not (is_session_running m) then (m, err not_in_running) else (request_shutdown w m, ok tt)

-- `gsm_manager_request_reboot`.
unfoldable pub manager_request_reboot : World → Manager → Manager × Result (Unit {0})
unfolding request_reboot
manager_request_reboot w m =
    if not (is_session_running m) then (m, err not_in_running) else (request_reboot w m, ok tt)

-- The guard of `gsm_manager_setenv` and `gsm_manager_initialization_error`.
unfoldable pub may_initialize : Manager → Result (Unit {0})
may_initialize m = if ltb 1 (phase_num m.phase) then err not_in_initialization else ok tt

-- `on_xsmp_client_logout_request`.
unfoldable pub on_xsmp_client_logout_request : World → Bool → Manager → Manager
unfolding manager_logout
on_xsmp_client_logout_request w show_dialog m =
    (manager_logout w (if show_dialog then 0 else 1) m).0
