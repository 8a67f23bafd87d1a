-- ===== src/Manager/Types.antt =====
-- The data of mate-session/gsm-manager.c and .h: the phases of a session, the kinds of logout, the
-- state of the manager, and what it asks of the world outside.
use mate_session_manager.Base.{ℕ, ◌||◌, Bool, true, false, Option, List, [], ◌∷◌, String}
use mate_session_manager.Store.{Store}
use mate_session_manager.Inhibitor.{Inhibitor}
use mate_session_manager.Client.{Client}
use mate_session_manager.Presence.{Presence}

-- `GsmManagerPhase`.
pub data Phase : Type 0 where
  startup initialization window_manager panel desktop application : Phase
  running query_end_session end_session exit : Phase

abbrev pub phase_num : Phase → ℕ
phase_num startup = 0
phase_num initialization = 1
phase_num window_manager = 2
phase_num panel = 3
phase_num desktop = 4
phase_num application = 5
phase_num running = 6
phase_num query_end_session = 7
phase_num end_session = 8
phase_num exit = 9

-- `priv->phase++`. The source never steps on from EXIT.
unfoldable pub next_phase : Phase → Phase
next_phase startup = initialization
next_phase initialization = window_manager
next_phase window_manager = panel
next_phase panel = desktop
next_phase desktop = application
next_phase application = running
next_phase running = query_end_session
next_phase query_end_session = end_session
next_phase end_session = exit
next_phase exit = exit

-- `phase < GSM_MANAGER_PHASE_APPLICATION`.
abbrev pub is_waiting_phase : Phase → Bool
is_waiting_phase application = false
is_waiting_phase running = false
is_waiting_phase query_end_session = false
is_waiting_phase end_session = false
is_waiting_phase exit = false
is_waiting_phase _ = true

-- `phase >= GSM_MANAGER_PHASE_QUERY_END_SESSION`.
abbrev pub is_ending : Phase → Bool
is_ending query_end_session = true
is_ending end_session = true
is_ending exit = true
is_ending _ = false

-- `GsmManagerLogoutMode`.
pub data LogoutMode : Type 0 where
  normal no_confirmation force : LogoutMode

-- `GsmManagerLogoutType`; `no_logout` is GSM_MANAGER_LOGOUT_NONE.
pub data LogoutType : Type 0 where
  no_logout logout reboot reboot_interact reboot_mdm : LogoutType
  shutdown shutdown_interact shutdown_mdm : LogoutType

-- `GsmLogoutAction` (mate-session/gsm-inhibit-dialog.h): what an inhibit dialog is about.
pub data LogoutAction : Type 0 where
  to_logout to_switch_user to_shutdown to_reboot to_hibernate to_sleep : LogoutAction

-- The answers to an inhibit dialog that reach the manager (GTK_RESPONSE_CANCEL, NONE,
-- DELETE_EVENT and ACCEPT); the dialog keeps its own answer, to lock the screen, to itself.
pub data InhibitResponse : Type 0 where
  cancel nothing delete_event accept : InhibitResponse

-- The answers to the logout and shutdown dialogs (mate-session/gsm-logout-dialog.h); `dismiss` is
-- GTK_RESPONSE_CANCEL, NONE and DELETE_EVENT.
pub data LogoutResponse : Type 0 where
  dismiss ask_logout ask_switch_user ask_shutdown ask_reboot ask_hibernate ask_sleep :
      LogoutResponse

-- `GsmManagerError`.
pub data Error : Type 0 where
  general not_in_initialization not_in_running already_registered not_registered : Error
  invalid_option locked_down : Error

-- The argument of `mdm_set_logout_action`.
pub data MdmAction : Type 0 where
  mdm_none mdm_shutdown mdm_reboot : MdmAction

-- An application to start (mate-session/gsm-app.c), as the manager sees it.
pub record App : Type 0 where
  pub id : ℕ
  pub app_id : Option String
  pub startup_id : Option String
  pub phase : Phase
  pub disabled : Bool
  pub conditionally_disabled : Bool
  pub autostart_delay : ℕ
  pub autorestart : Bool
  pub is_running : Bool

-- What the manager does to the world outside.
pub data Effect : Type 0 where
  app_start app_stop app_restart app_watch : ℕ → Effect
  app_schedule : ℕ → ℕ → Effect
  client_query client_end : ℕ → ℕ → Effect
  client_stop client_cancel : ℕ → Effect
  client_added client_removed inhibitor_added inhibitor_removed : ℕ → Effect
  session_running session_save main_quit assert_failed dialog_aborted : Effect
  attempt_restart attempt_stop attempt_suspend attempt_hibernate : Effect
  perhaps_lock switch_user restart_user_bus : Effect
  mdm_action : MdmAction → Effect
  inhibit_dialog_shown : LogoutAction → Effect
  inhibit_dialog_presented logout_dialog_shown shutdown_dialog_shown : Effect
  restart_privileges stop_privileges : Effect

-- What the world outside answers while one event is handled: settings, D-Bus services, processes.
-- `random` is the sequence of random numbers, and `rounds` bounds the draws for one cookie.
pub record World : Type 0 where
  pub log_out_disabled : Bool
  pub user_switch_disabled : Bool
  pub auto_save : Bool
  pub logout_prompt : Bool
  pub logind_running : Bool
  pub is_login_window : Bool
  pub last_session : Bool
  pub can_suspend : Bool
  pub can_hibernate : Bool
  pub gets_privileges : Bool
  pub app_starts : ℕ → Bool
  pub query_sent : ℕ → Bool
  pub end_sent : ℕ → Bool
  pub random : ℕ → ℕ
  pub rounds : ℕ

-- Which privileges were asked for, while "privileges-completed" is awaited.
pub data Privilege : Type 0 where
  to_restart to_stop : Privilege

-- `GsmManagerPrivate`, less settings and D-Bus connections. A timer's source identifier is kept as
-- whether it is positive; a list of clients or applications holds their serial numbers. `handlers`
-- are the applications with `app_registered` connected, `privileges` the requests with a
-- handler connected to "privileges-completed", `logout_dialog` says whether the logout or shutdown
-- dialog, of which there is one at most, is open; `draws` counts the random numbers used. `effects` holds what was done, the latest first.
pub record Manager : Type 0 where
  pub clients : Store ℕ Client
  pub inhibitors : Store ℕ Inhibitor
  pub apps : Store ℕ App
  pub presence : Presence
  pub phase : Phase
  pub phase_timeout : Bool
  pub pending_apps : List ℕ
  pub handlers : List ℕ
  pub logout_mode : LogoutMode
  pub query_clients : List ℕ
  pub query_timeout : Bool
  pub next_query_clients : List ℕ
  pub logout_type : LogoutType
  pub inhibit_dialog : Option LogoutAction
  pub condition_clients : List ℕ
  pub dbus_disconnected : Bool
  pub inhibitor_serial : ℕ
  pub client_serial : ℕ
  pub draws : ℕ
  pub logout_dialog : Bool
  pub privileges : List Privilege
  pub effects : List Effect

abbrev pub emit : Effect → Manager → Manager
emit e m = record m { effects = e ∷ m.effects }

abbrev pub is_assertion : Effect → Bool
is_assertion assert_failed = true
is_assertion _ = false

-- Whether `g_assert_not_reached` was reached in `gsm_manager_quit`.
abbrev pub has_failed : List Effect → Bool
has_failed [] = false
has_failed (e ∷ es) = is_assertion e || has_failed es
