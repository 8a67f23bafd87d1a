-- ===== src/LogoutDialog.antt =====
-- mate-session/gsm-logout-dialog.c: the dialogs that ask for a log out or a shut down, and their
-- countdown. Widgets are outside, but for the buttons and the text of the progress bar.
pub mod Countdown
pub mod Buttons
use mate_session_manager.Base.{
  ℕ, suc, zero, ℤ, pos, negsuc, Bool, true, false, not, ◌&&◌, ◌||◌, Option, none, some, List, [],
  ◌∷◌, ◌++◌, if◌then◌else◌,
}
use mate_session_manager.Manager.Types.{
  LogoutResponse, dismiss, ask_logout, ask_switch_user, ask_shutdown, ask_reboot, ask_hibernate,
  ask_sleep,
}

-- `GsmDialogLogoutType`.
pub data DialogType : Type 0 where
  logout shutdown : DialogType

-- What systemd or ConsoleKit says that the user may do.
pub record Seat : Type 0 where
  pub can_suspend : Bool
  pub can_hibernate : Bool
  pub can_switch_user : Bool
  pub can_restart : Bool
  pub can_stop : Bool

-- The system: LOGIND_RUNNING, the two services, the lockdown key, and what the display manager offers.
pub record System : Type 0 where
  pub logind_running : Bool
  pub systemd : Seat
  pub consolekit : Seat
  pub disable_user_switching : Bool
  pub mdm_reboot : Bool
  pub mdm_shutdown : Bool

-- `_GsmLogoutDialog`. `timeout_id` is whether a source is set; `text` the seconds that the progress bar
-- shows, none if it is hidden or new; `responses` what `gtk_dialog_response` emitted, the latest first.
pub record Dialog : Type 0 where
  pub type : DialogType
  pub timeout : ℤ
  pub timeout_id : Bool
  pub default_response : LogoutResponse
  pub buttons : List LogoutResponse
  pub text : Option ℤ
  pub responses : List LogoutResponse

-- `gsm_logout_dialog_init`.
abbrev pub init : DialogType → Dialog
init type = record {
  type = type;
  timeout = pos 0;
  timeout_id = false;
  default_response = dismiss;
  buttons = [];
  text = none;
  responses = [];
}

abbrev pub seat : System → Seat
seat sys = if sys.logind_running then sys.systemd else sys.consolekit

unfoldable pub supports_system_suspend : System → Bool
supports_system_suspend sys = (seat sys).can_suspend

unfoldable pub supports_system_hibernate : System → Bool
supports_system_hibernate sys = (seat sys).can_hibernate

unfoldable pub supports_switch_user : System → Bool
supports_switch_user sys = if sys.disable_user_switching then false else (seat sys).can_switch_user

unfoldable pub supports_reboot : System → Bool
supports_reboot sys = (seat sys).can_restart || sys.mdm_reboot

unfoldable pub supports_shutdown : System → Bool
supports_shutdown sys = (seat sys).can_stop || sys.mdm_shutdown

-- `timeout--` on an `int`.
abbrev pub pred : ℤ → ℤ
pred (pos zero) = negsuc 0
pred (pos (suc n)) = pos n
pred (negsuc n) = negsuc (suc n)

-- `gsm_logout_dialog_timeout`, by the timeout; whether it is to be called again.
unfoldable pub timeout_at : ℤ → Dialog → Dialog × Bool
timeout_at (pos zero) d = (record d { responses = d.default_response ∷ d.responses }, false)
timeout_at (pos (suc n)) d = (record d { text = some (pos (suc n)); timeout = pos n }, true)
timeout_at (negsuc n) d = (record d { text = some (negsuc n); timeout = negsuc (suc n) }, true)

unfoldable pub timeout : Dialog → Dialog × Bool
unfolding timeout_at
timeout d = timeout_at d.timeout d

-- `gsm_logout_dialog_set_timeout`, with the setting `logout-timeout`. The first call sets the text.
unfoldable pub set_timeout : ℤ → Dialog → Dialog
unfolding timeout
set_timeout (pos (suc n)) d = record (timeout (record d { timeout = pos (suc n) })).0 {
  timeout_id = true;
}
set_timeout n d = record d { timeout = n; text = none }

-- A second goes by: the source calls `timeout`, and is gone if that returns FALSE. The dialog's own
-- record of the source stays; here it is the source.
unfoldable pub second_at : Bool → Dialog → Dialog
unfolding timeout
second_at true d = let r = timeout d in record r.0 { timeout_id = r.1 }
second_at false d = d

unfoldable pub second : Dialog → Dialog
unfolding second_at
second d = second_at d.timeout_id d

unfoldable pub seconds : ℕ → Dialog → Dialog
unfolding second
seconds zero d = d
seconds (suc n) d = seconds n (second d)

-- `gsm_logout_dialog_destroy`, of what is kept.
unfoldable pub destroy : Dialog → Dialog
destroy d = record d { timeout_id = false }

abbrev add_if : Bool → LogoutResponse → List LogoutResponse
add_if true r = r ∷ []
add_if false r = []

abbrev pub logout_buttons : Bool → List LogoutResponse
logout_buttons switch = add_if switch ask_switch_user ++ (dismiss ∷ ask_logout ∷ [])

abbrev pub shutdown_buttons : Bool → Bool → Bool → Bool → List LogoutResponse
shutdown_buttons suspend hibernate reboot stop =
    add_if suspend ask_sleep
    ++ (add_if hibernate ask_hibernate
        ++ (add_if reboot ask_reboot ++ (dismiss ∷ add_if stop ask_shutdown)))

-- `gsm_get_dialog`: the dialog that is there is destroyed, and a new one is made.
unfoldable pub new_dialog : System → DialogType → Dialog
unfolding supports_system_suspend supports_system_hibernate supports_switch_user supports_reboot
    supports_shutdown
new_dialog sys logout = record (init logout) {
  default_response = ask_logout;
  buttons = logout_buttons (supports_switch_user sys);
}
new_dialog sys shutdown = record (init shutdown) {
  default_response = ask_shutdown;
  buttons =
      shutdown_buttons (supports_system_suspend sys) (supports_system_hibernate sys)
        (supports_reboot sys) (supports_shutdown sys);
}

unfoldable pub get_dialog : System → DialogType → Option Dialog → Option Dialog × Dialog
unfolding destroy new_dialog
get_dialog sys type none = (none, new_dialog sys type)
get_dialog sys type (some old) = (some (destroy old), new_dialog sys type)
