-- ===== src/LogoutDialog/Buttons.antt =====
-- The buttons of a dialog and its default response (mate-session/gsm-logout-dialog.c).
use mate_session_manager.Base.{
  ℕ, suc, ◌≡◌, refl, ap, ◌∙◌, pos, Bool, true, false, not, ◌||◌, ◌&&◌, some, [], ◌∷◌, map, contains,
  if◌then◌else◌, arith,
}
use mate_session_manager.Manager.Types.{
  LogoutResponse, dismiss, ask_logout, ask_switch_user, ask_shutdown, ask_reboot, ask_hibernate,
  ask_sleep,
}
use mate_session_manager.LogoutDialog.{
  Dialog, DialogType, logout, shutdown, System, set_timeout, seconds, destroy, logout_buttons,
  shutdown_buttons, new_dialog, get_dialog, seat, supports_system_suspend,
  supports_system_hibernate, supports_switch_user, supports_reboot, supports_shutdown,
}
use mate_session_manager.LogoutDialog.Countdown.{countdown_fires, silent}

abbrev pub num : LogoutResponse → ℕ
num dismiss = 0
num ask_logout = 1
num ask_switch_user = 2
num ask_shutdown = 3
num ask_reboot = 4
num ask_hibernate = 5
num ask_sleep = 6

-- Whether a dialog has a button for a response.
abbrev pub offers : LogoutResponse → Dialog → Bool
offers r d = contains (num r) (map num d.buttons)

-- What each dialog is to offer, by what the system says: cancelling always, and the rest as the service
-- that runs allows it, or the display manager does.
abbrev pub on_logout : Bool → LogoutResponse → Bool
on_logout switch dismiss = true
on_logout switch ask_logout = true
on_logout switch ask_switch_user = switch
on_logout switch _ = false

abbrev pub on_shutdown : Bool → Bool → Bool → Bool → LogoutResponse → Bool
on_shutdown suspend hibernate reboot stop dismiss = true
on_shutdown suspend hibernate reboot stop ask_sleep = suspend
on_shutdown suspend hibernate reboot stop ask_hibernate = hibernate
on_shutdown suspend hibernate reboot stop ask_reboot = reboot
on_shutdown suspend hibernate reboot stop ask_shutdown = stop
on_shutdown suspend hibernate reboot stop _ = false

abbrev pub allowed : System → DialogType → LogoutResponse → Bool
allowed sys logout r = on_logout (not sys.disable_user_switching && (seat sys).can_switch_user) r
allowed sys shutdown r =
    on_shutdown (seat sys).can_suspend (seat sys).can_hibernate
      ((seat sys).can_restart || sys.mdm_reboot) ((seat sys).can_stop || sys.mdm_shutdown) r

logout_buttons_lem :
    (a : Bool) (r : LogoutResponse) → contains (num r) (map num (logout_buttons a)) ≡ on_logout a r
logout_buttons_lem a r = ground arith

shutdown_buttons_lem :
    (a b c d : Bool) (r : LogoutResponse)
    → contains (num r) (map num (shutdown_buttons a b c d)) ≡ on_shutdown a b c d r
shutdown_buttons_lem a b c d r = ground arith

unless_locked : (locked can : Bool) → (if locked then false else can) ≡ not locked && can
unless_locked true can = refl
unless_locked false can = refl

pub offers_lem :
    (sys : System) (type : DialogType) (r : LogoutResponse)
    → offers r (new_dialog sys type) ≡ allowed sys type r
unfolding new_dialog supports_system_suspend supports_system_hibernate supports_switch_user
    supports_reboot supports_shutdown
offers_lem sys logout r =
    logout_buttons_lem (supports_switch_user sys) r
    ∙ ap (λ (b : Bool). on_logout b r)
        (unless_locked sys.disable_user_switching (seat sys).can_switch_user)
offers_lem sys shutdown r =
    shutdown_buttons_lem (seat sys).can_suspend (seat sys).can_hibernate
      ((seat sys).can_restart || sys.mdm_reboot) ((seat sys).can_stop || sys.mdm_shutdown) r

-- A new dialog has a button for a response exactly when the system allows it there, and every dialog
-- has one to cancel; the dialog that was there before gives no response by itself any more.
pub new_dialog-offers :
    (sys : System) (type : DialogType) (r : LogoutResponse) (old : Dialog) (n : ℕ)
    → (offers r (get_dialog sys type (some old)).1 ≡ allowed sys type r)
      × ((get_dialog sys type (some old)).0 ≡ some (destroy old))
      × ((seconds n (destroy old)).responses ≡ old.responses)
unfolding get_dialog destroy
new_dialog-offers sys type r old n =
    (offers_lem sys type r, refl, ap (λ (x : Dialog). x.responses) (silent n (destroy old) refl))

-- A system allows no shut down: the shut down dialog has no button for it, and yet, with a setting of
-- some seconds above 0, that is the response which it gives by itself after them.
pub unsupported_shutdown_fires :
    (sys : System) (n : ℕ)
    → (seat sys).can_stop ≡ false
    → sys.mdm_shutdown ≡ false
    → let d = new_dialog sys shutdown in
      (offers ask_shutdown d ≡ false)
      × ((seconds (suc n) (set_timeout (pos (suc n)) d)).responses ≡ ask_shutdown ∷ [])
unfolding new_dialog supports_shutdown
unsupported_shutdown_fires sys n c m = (
  offers_lem sys shutdown ask_shutdown ∙ rw (c, m),
  (countdown_fires n (new_dialog sys shutdown) refl).1 (suc n) (omega arith),
)
