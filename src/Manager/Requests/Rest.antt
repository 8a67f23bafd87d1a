-- ===== src/Manager/Requests/Rest.antt =====
-- Requests of users and programs lead the manager from rest to rest.
use mate_session_manager.Base.{
  ℕ, ◌≡◌, ◌≢◌, refl, Bool, true, false, some, ◌∷◌, arith, Bool-cases, inl, inr, Option-cases, ltb,
}
use mate_session_manager.Manager.Queries.{is_session_running}
use mate_session_manager.Manager.Phases.{end_phase}
use mate_session_manager.Manager.Phases.Rest.{IsAtRest, ends_session}
use mate_session_manager.Manager.Phases.Settle.{end_phase-IsAtRest}
use mate_session_manager.Manager.Dialogs.{
  manager_switch_user, manager_attempt_hibernate, manager_attempt_suspend,
}
use mate_session_manager.Manager.Dialogs.Rest.{IsAtRest-CanEnd}
use mate_session_manager.Manager.EndSession.{show_inhibit_dialog}
use mate_session_manager.Manager.Types.{
  Manager, World, phase_num, LogoutMode, normal, no_confirmation, force, no_logout, reboot_mdm,
  shutdown_mdm, LogoutAction, to_sleep, to_hibernate, to_switch_user, LogoutResponse, dismiss,
  ask_logout, ask_switch_user, ask_shutdown, ask_reboot, ask_hibernate, ask_sleep,
  restart_privileges, stop_privileges,
}
use mate_session_manager.Manager.Requests.{
  request_reboot, request_shutdown, reboot_privileges_completed, shutdown_privileges_completed,
  request_suspend, request_hibernate, request_switch_user, request_logout, do_logout_response,
  logout_dialog_response, show_shutdown_dialog, show_logout_dialog, user_logout, mode_of,
  manager_logout, manager_shutdown, manager_request_shutdown, manager_request_reboot,
}

-- The session runs or ends, so requests are heard.
abbrev pub IsRunning : Manager → Type 0
IsRunning m = ltb (phase_num m.phase) 6 ≡ false

-- A logout that has a type goes on to the next phase, from rest to rest.
end_phase_typed :
    (w : World) (m : Manager)
    → IsRunning m
    → m.logout_type ≢ no_logout
    → IsAtRest m
    → IsAtRest (end_phase w m)
end_phase_typed w m g t r = end_phase-IsAtRest w m (IsAtRest-CanEnd m r (ground arith) (λ _. t))

request_reboot-IsAtRest :
    (w : World) (m : Manager) → IsRunning m → IsAtRest m → IsAtRest (request_reboot w m)
unfolding request_reboot
request_reboot-IsAtRest w m g r = ground (
  arith,
  end_phase_typed w
      (record m { logout_type = reboot_mdm; effects = restart_privileges ∷ m.effects }) g (λ c. cc)
      (ground arith),
)

request_shutdown-IsAtRest :
    (w : World) (m : Manager) → IsRunning m → IsAtRest m → IsAtRest (request_shutdown w m)
unfolding request_shutdown
request_shutdown-IsAtRest w m g r = ground (
  arith,
  end_phase_typed w (record m { logout_type = shutdown_mdm; effects = stop_privileges ∷ m.effects })
      g (λ c. cc) (ground arith),
)

pub reboot_privileges_completed-IsAtRest :
    (w : World) (success ask_later : Bool) (m : Manager)
    → IsRunning m
    → IsAtRest m
    → IsAtRest (reboot_privileges_completed w success ask_later m)
unfolding reboot_privileges_completed
reboot_privileges_completed-IsAtRest w true true m g r =
    end_phase_typed w _ g (λ c. cc) (ground arith)
reboot_privileges_completed-IsAtRest w true false m g r =
    end_phase_typed w _ g (λ c. cc) (ground arith)
reboot_privileges_completed-IsAtRest w false ask_later m g r = ground arith

pub shutdown_privileges_completed-IsAtRest :
    (w : World) (success ask_later : Bool) (m : Manager)
    → IsRunning m
    → IsAtRest m
    → IsAtRest (shutdown_privileges_completed w success ask_later m)
unfolding shutdown_privileges_completed
shutdown_privileges_completed-IsAtRest w true true m g r =
    end_phase_typed w _ g (λ c. cc) (ground arith)
shutdown_privileges_completed-IsAtRest w true false m g r =
    end_phase_typed w _ g (λ c. cc) (ground arith)
shutdown_privileges_completed-IsAtRest w false ask_later m g r = ground arith

show_inhibit_dialog-IsAtRest :
    (a : LogoutAction) (m : Manager)
    → ends_session (some a) ≡ false
    → IsRunning m
    → IsAtRest m
    → IsAtRest (show_inhibit_dialog a m)
unfolding show_inhibit_dialog
show_inhibit_dialog-IsAtRest a m e g r = elim (Option-cases m.inhibit_dialog) [
  | inl d ↦ rw (d, show_inhibit_dialog) (ground arith)
  | inr (b, d) ↦ rw (d, show_inhibit_dialog) (ground arith)
]

request_suspend-IsAtRest :
    (w : World) (m : Manager) → IsRunning m → IsAtRest m → IsAtRest (request_suspend w m)
unfolding request_suspend manager_attempt_suspend
request_suspend-IsAtRest w m g r = ground (arith, show_inhibit_dialog-IsAtRest to_sleep m refl g r)

request_hibernate-IsAtRest :
    (w : World) (m : Manager) → IsRunning m → IsAtRest m → IsAtRest (request_hibernate w m)
unfolding request_hibernate manager_attempt_hibernate
request_hibernate-IsAtRest w m g r =
    ground (arith, show_inhibit_dialog-IsAtRest to_hibernate m refl g r)

request_switch_user-IsAtRest :
    (w : World) (m : Manager) → IsRunning m → IsAtRest m → IsAtRest (request_switch_user w m)
unfolding request_switch_user manager_switch_user
request_switch_user-IsAtRest w m g r =
    ground (arith, show_inhibit_dialog-IsAtRest to_switch_user m refl g r)

request_logout-IsAtRest :
    (w : World) (mode : LogoutMode) (m : Manager)
    → IsRunning m
    → IsAtRest m
    → IsAtRest (request_logout w mode m)
unfolding request_logout
request_logout-IsAtRest w mode m g r = end_phase_typed w _ g (λ c. cc) (ground arith)

do_logout_response-IsAtRest :
    (w : World) (response : LogoutResponse) (m : Manager)
    → IsRunning m
    → IsAtRest m
    → IsAtRest (do_logout_response w response m)
unfolding do_logout_response
do_logout_response-IsAtRest w dismiss m g r = r
do_logout_response-IsAtRest w ask_switch_user m g r = request_switch_user-IsAtRest w m g r
do_logout_response-IsAtRest w ask_hibernate m g r = request_hibernate-IsAtRest w m g r
do_logout_response-IsAtRest w ask_sleep m g r = request_suspend-IsAtRest w m g r
do_logout_response-IsAtRest w ask_shutdown m g r = request_shutdown-IsAtRest w m g r
do_logout_response-IsAtRest w ask_reboot m g r = request_reboot-IsAtRest w m g r
do_logout_response-IsAtRest w ask_logout m g r = request_logout-IsAtRest w no_confirmation m g r

pub logout_dialog_response-IsAtRest :
    (w : World) (response : LogoutResponse) (m : Manager)
    → IsRunning m
    → IsAtRest m
    → IsAtRest (logout_dialog_response w response m)
unfolding logout_dialog_response
logout_dialog_response-IsAtRest w response m g r = ground (
  arith,
  do_logout_response-IsAtRest w response (record m { logout_dialog = false }) g (ground arith),
)

user_logout-IsAtRest :
    (w : World) (mode : LogoutMode) (m : Manager)
    → IsRunning m
    → IsAtRest m
    → IsAtRest (user_logout w mode m)
unfolding user_logout show_logout_dialog
user_logout-IsAtRest w normal m g r = ground (arith, request_logout-IsAtRest w normal m g r)
user_logout-IsAtRest w no_confirmation m g r =
    ground (arith, request_logout-IsAtRest w no_confirmation m g r)
user_logout-IsAtRest w force m g r = ground (arith, request_logout-IsAtRest w force m g r)

session_runs : (m : Manager) → is_session_running m ≡ true → IsRunning m
unfolding is_session_running
session_runs m h = ground arith

pub manager_logout-IsAtRest :
    (w : World) (mode : ℕ) (m : Manager) → IsAtRest m → IsAtRest (manager_logout w mode m).0
unfolding manager_logout
manager_logout-IsAtRest w mode m r = elim (Bool-cases (is_session_running m)) [
  | inr e ↦ rw e r
  | inl e ↦ elim (Option-cases (mode_of mode)) [
    | inl o ↦ ground arith
    | inr (a, o) ↦ ground (arith, user_logout-IsAtRest w a m (session_runs m e) r)
  ]
]

pub manager_shutdown-IsAtRest :
    (w : World) (m : Manager) → IsAtRest m → IsAtRest (manager_shutdown w m).0
unfolding manager_shutdown show_shutdown_dialog
manager_shutdown-IsAtRest w m r = elim (Bool-cases (is_session_running m)) [
  | inr e ↦ rw e r
  | inl e ↦ ground (arith, session_runs m e)
]

pub manager_request_shutdown-IsAtRest :
    (w : World) (m : Manager) → IsAtRest m → IsAtRest (manager_request_shutdown w m).0
unfolding manager_request_shutdown
manager_request_shutdown-IsAtRest w m r = elim (Bool-cases (is_session_running m)) [
  | inr e ↦ rw e r
  | inl e ↦ rw e (request_shutdown-IsAtRest w m (session_runs m e) r)
]

pub manager_request_reboot-IsAtRest :
    (w : World) (m : Manager) → IsAtRest m → IsAtRest (manager_request_reboot w m).0
unfolding manager_request_reboot
manager_request_reboot-IsAtRest w m r = elim (Bool-cases (is_session_running m)) [
  | inr e ↦ rw e r
  | inl e ↦ rw e (request_reboot-IsAtRest w m (session_runs m e) r)
]
