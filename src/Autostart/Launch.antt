-- ===== src/Autostart/Launch.antt =====
-- mate-session/gsm-autostart-app.c: the process of an application is started, stopped and watched.
pub mod Life
pub mod Restart
use mate_session_manager.Base.{
  ℕ, suc, zero, ℤ, pos, negsuc, int_eq, Bool, true, false, Option, none, some, List, [], ◌∷◌,
  String, if◌then◌else◌, remove_all, ErrorRef, null, freed, live,
}
use mate_session_manager.Autostart.{Autostart, LaunchType, spawn, activate, no_number}

-- GSM_APP_ERROR_START and GSM_APP_ERROR_STOP, and what D-Bus reports.
pub data Error : Type 0 where
  start_failed not_running unable_to_stop no_bus no_proxy : Error

-- `g_set_error`: where an error is set already it is only warned of, which reads the old one; `none`
-- is a read of memory that was freed.
unfoldable pub set_error : Error → ErrorRef Error → Option (ErrorRef Error)
set_error e null = some (live e)
set_error e (live old) = some (live old)
set_error e freed = none

-- What the system does at a call: the process that `egg_desktop_file_launch` starts, if it does (else
-- it leaves the number alone), whether `kill` succeeds, whether the bus is there, and whether a proxy can be made.
pub record System : Type 0 where
  pub launch : Option ℕ
  pub kill : ℕ → Bool
  pub bus : Bool
  pub proxy : Bool

-- What a call leaves: the application, what it returns, the error, and the processes that were sent
-- SIGTERM.
pub record Done : Type 0 where
  pub app : Autostart
  pub ok : Bool
  pub error : ErrorRef Error
  pub sent : List ℕ

abbrev failing : Autostart → List ℕ → Option (ErrorRef Error) → Option Done
failing a sent none = none
failing a sent (some e) = some (record { app = a; ok = false; error = e; sent = sent })

abbrev doing : Autostart → List ℕ → ErrorRef Error → Option Done
doing a sent e = some (record { app = a; ok = true; error = e; sent = sent })

-- `autostart_app_start_spawn`, by what the launch gives.
unfoldable pub start_spawn : Option ℕ → ErrorRef Error → Autostart → Option Done
unfolding set_error
start_spawn none error a = failing a [] (set_error start_failed error)
start_spawn (some pid) error a =
    doing
      (record a { pid = pos pid; child_watches = pid ∷ a.child_watches; child_watch_id = some pid })
      [] error

-- `autostart_app_start_activate`; the call of "Start" is not answered yet.
unfoldable pub start_activate : System → ErrorRef Error → Autostart → Option Done
unfolding set_error
start_activate sys error a =
    if sys.bus
    then (if sys.proxy then doing a [] error else failing a [] (set_error no_proxy error))
    else failing a [] (set_error no_bus error)

-- `gsm_autostart_app_start`.
unfoldable pub start : System → ErrorRef Error → LaunchType → Autostart → Option Done
unfolding start_spawn start_activate
start sys error spawn a = start_spawn sys.launch error a
start sys error activate a = start_activate sys error a

-- `autostart_app_stop_spawn`, by the process that is known.
unfoldable pub stop_spawn : System → ErrorRef Error → ℤ → Autostart → Option Done
unfolding set_error
stop_spawn sys error (negsuc _) a = failing a [] (set_error not_running error)
stop_spawn sys error (pos zero) a = failing a [] (set_error not_running error)
stop_spawn sys error (pos (suc n)) a =
    if sys.kill (suc n)
    then doing a (suc n ∷ []) error
    else failing a (suc n ∷ []) (set_error unable_to_stop error)

-- `gsm_autostart_app_stop`; `autostart_app_stop_activate` does nothing.
unfoldable pub stop : System → ErrorRef Error → LaunchType → Autostart → Option Done
unfolding stop_spawn
stop sys error spawn a = stop_spawn sys error a.pid a
stop sys error activate a = doing a [] error

-- The second half of `gsm_autostart_app_restart`: an error that `gsm_app_stop` reported was freed, but
-- the place is not cleared.
abbrev start_again : System → Done → Option Done
start_again sys d = elim (start sys (if d.ok then d.error else freed) d.app.launch_type d.app) [
  | none ↦ none
  | some e ↦ some (record e { sent = d.sent })
]

unfoldable pub restart : System → Autostart → Option Done
unfolding start stop
restart sys a = elim (stop sys null a.launch_type a) [ none ↦ none | some d ↦ start_again sys d ]

-- `app_exited`, the handler of a process that was watched; the source of the watch is gone with it.
unfoldable pub app_exited : ℕ → Autostart → Autostart
app_exited pid a = record a {
  pid = no_number;
  child_watches = remove_all pid a.child_watches;
  child_watch_id = none;
}

abbrev watches_left : Option ℕ → List ℕ → List ℕ
watches_left none l = l
watches_left (some p) l = remove_all p l

-- `gsm_autostart_app_dispose`.
unfoldable pub dispose : Autostart → Autostart
dispose a = record a {
  startup_id = none;
  condition_string = none;
  condition_settings = none;
  condition_monitor = none;
  desktop_file = none;
  child_watches = watches_left a.child_watch_id a.child_watches;
  child_watch_id = none;
}
