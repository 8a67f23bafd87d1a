-- ===== src/Manager/Phases.antt =====
-- The phases of a session (mate-session/gsm-manager.c, `start_phase` and `end_phase`).
-- The two functions call each other: a phase with nothing to wait for ends at once, and the end of
-- a phase starts the next. `end_phase_with` and `start_phase_with` are their bodies over the other
-- function; `end_phase` ties the knot with fuel for the ten phases.
pub mod Asked
pub mod Frame
pub mod Fuel
pub mod Rest
pub mod Settle
use mate_session_manager.Base.{
  ℕ, zero, suc, ◌+◌, Bool, true, false, not, ◌&&◌, ◌||◌, List, [], ◌∷◌, if◌then◌else◌, is_nil, ltb,
  ◌==◌, contains, slist_remove, remove_all,
}
use mate_session_manager.Store
use mate_session_manager.Client.{Client}
use mate_session_manager.Manager.Queries.{update_idle}
use mate_session_manager.Manager.Types.{
  Manager, World, App, Phase, startup, initialization, window_manager, panel, desktop, application,
  running, query_end_session, end_session, exit, phase_num, next_phase, is_waiting_phase, force,
  LogoutMode, normal, no_confirmation, LogoutType, no_logout, logout, reboot, reboot_interact,
  reboot_mdm, shutdown, shutdown_interact, shutdown_mdm, emit, app_start, app_watch, app_schedule,
  client_end, client_query, client_stop, session_running, session_save, main_quit, assert_failed,
  attempt_restart, attempt_stop, restart_user_bus, mdm_action, mdm_none, mdm_shutdown, mdm_reboot,
}

-- `gsm_manager_quit`: what the session ends in.
unfoldable pub quit : Manager → Manager
quit m = elim m.logout_type [
  | logout ↦ emit main_quit m
  | reboot ↦ emit attempt_restart (emit (mdm_action mdm_none) m)
  | reboot_interact ↦ emit attempt_restart (emit (mdm_action mdm_none) m)
  | reboot_mdm ↦ emit main_quit (emit (mdm_action mdm_reboot) m)
  | shutdown ↦ emit attempt_stop (emit (mdm_action mdm_none) m)
  | shutdown_interact ↦ emit attempt_stop (emit (mdm_action mdm_none) m)
  | shutdown_mdm ↦ emit main_quit (emit (mdm_action mdm_shutdown) m)
  | no_logout ↦ emit assert_failed m
]

unfoldable pub maybe_save_session : World → Manager → Manager
maybe_save_session w m =
    if w.is_login_window
    then m
    else if phase_num m.phase == 6 || phase_num m.phase == 8
    then emit session_save m
    else m

-- The lists and the timer that both the end and the start of a phase throw away.
unfoldable pub reset_phase : Manager → Manager
reset_phase m = record m {
  pending_apps = [];
  query_clients = [];
  next_query_clients = [];
  phase_timeout = false;
}

-- `_start_app`: an application of the current phase is watched, and started unless it is
-- disabled or delayed; the phase waits for it up to DESKTOP.
unfoldable pub start_app : World → App → Manager → Manager
start_app w a m =
    if not (phase_num a.phase == phase_num m.phase)
    then m
    else let n = emit (app_watch a.id) m in
      if a.disabled || a.conditionally_disabled
      then n
      else if ltb 0 a.autostart_delay
      then emit (app_schedule a.id a.autostart_delay) n
      else let s = emit (app_start a.id) n in
        if w.app_starts a.id && is_waiting_phase s.phase
        then record s { pending_apps = a.id ∷ s.pending_apps; handlers = a.id ∷ s.handlers }
        else s

unfoldable pub start_apps : World → List (ℕ × App) → Manager → Manager
unfolding start_app
start_apps w [] m = m
start_apps w ((_, a) ∷ r) m = start_apps w r (start_app w a m)

-- `do_phase_startup`, given `end_phase`.
unfoldable pub do_phase_startup : (Manager → Manager) → World → Manager → Manager
do_phase_startup k w m =
    let n = start_apps w m.apps.objects m in
    if is_nil n.pending_apps
    then k n
    else if is_waiting_phase n.phase
    then record n { phase_timeout = true }
    else n

-- The flags of `do_phase_query_end_session` and `do_phase_end_session`: FORCEFUL, SAVE and LAST are
-- the bits 1, 2 and 4.
unfoldable pub end_session_flags : Bool → LogoutMode → Bool → ℕ
end_session_flags save mode last =
    elim mode [ force ↦ 1 | normal ↦ 0 | no_confirmation ↦ 0 ]
    + (if save then 2 else 0)
    + (if last then 4 else 0)

-- `_client_end_session`: a client that could be told is waited for.
unfoldable pub client_end_session : World → ℕ → ℕ → Manager → Manager
client_end_session w flags id m =
    let n = emit (client_end id flags) m in
    if w.end_sent id then record n { query_clients = id ∷ n.query_clients } else n

unfoldable pub end_clients : World → ℕ → List (ℕ × Client) → Manager → Manager
unfolding client_end_session
end_clients w flags [] m = m
end_clients w flags ((_, c) ∷ r) m = end_clients w flags r (client_end_session w flags c.id m)

unfoldable pub do_phase_end_session : (Manager → Manager) → World → Manager → Manager
unfolding end_clients end_session_flags
do_phase_end_session k w m =
    let n = record m { phase_timeout = false } in
    if ltb 0 (Store.size n.clients)
    then end_clients w (end_session_flags w.auto_save n.logout_mode false) n.clients.objects
        (record n { phase_timeout = true })
    else k n

-- `_client_query_end_session`.
unfoldable pub client_query_end_session : World → ℕ → ℕ → Manager → Manager
client_query_end_session w flags id m =
    let n = emit (client_query id flags) m in
    if w.query_sent id then record n { query_clients = id ∷ n.query_clients } else n

unfoldable pub query_all : World → ℕ → List (ℕ × Client) → Manager → Manager
unfolding client_query_end_session
query_all w flags [] m = m
query_all w flags ((_, c) ∷ r) m = query_all w flags r (client_query_end_session w flags c.id m)

unfoldable pub do_phase_query_end_session : World → Manager → Manager
unfolding query_all end_session_flags
do_phase_query_end_session w m =
    let n = query_all w (end_session_flags false m.logout_mode false) m.clients.objects m in
    record n { query_timeout = true }

unfoldable pub stop_clients : List (ℕ × Client) → Manager → Manager
stop_clients [] m = m
stop_clients ((_, c) ∷ r) m = stop_clients r (emit (client_stop c.id) m)

unfoldable pub maybe_restart_user_bus : World → Manager → Manager
maybe_restart_user_bus w m =
    if m.dbus_disconnected then m else if w.last_session then emit restart_user_bus m else m

unfoldable pub do_phase_exit : (Manager → Manager) → World → Manager → Manager
unfolding stop_clients maybe_restart_user_bus
do_phase_exit k w m =
    let n = if ltb 0 (Store.size m.clients) then stop_clients m.clients.objects m else m in
    k (maybe_restart_user_bus w n)

-- `priv->phase++; start_phase (manager)`, given `start_phase`.
abbrev pub advance : (Manager → Manager) → Manager → Manager
advance start m = start (record m { phase = next_phase m.phase })

-- The `switch` of `end_phase`.
unfoldable pub leave_phase : (Manager → Manager) → World → Phase → Manager → Manager
unfolding maybe_save_session quit next_phase
leave_phase start w running m = if w.log_out_disabled then m else advance start m
leave_phase start w end_session m =
    advance start (if w.auto_save then maybe_save_session w m else m)
leave_phase start w exit m = quit m
leave_phase start w startup m = advance start m
leave_phase start w initialization m = advance start m
leave_phase start w window_manager m = advance start m
leave_phase start w panel m = advance start m
leave_phase start w desktop m = advance start m
leave_phase start w application m = advance start m
leave_phase start w query_end_session m = advance start m

unfoldable pub end_phase_with : (Manager → Manager) → World → Manager → Manager
unfolding reset_phase leave_phase
end_phase_with start w m = leave_phase start w m.phase (reset_phase m)

-- The `switch` of `start_phase`, given `end_phase`.
unfoldable pub enter_phase : (Manager → Manager) → World → Phase → Manager → Manager
unfolding do_phase_startup do_phase_query_end_session do_phase_end_session do_phase_exit
enter_phase k w running m = update_idle (emit session_running m)
enter_phase k w query_end_session m = do_phase_query_end_session w m
enter_phase k w end_session m = do_phase_end_session k w m
enter_phase k w exit m = do_phase_exit k w m
enter_phase k w startup m = do_phase_startup k w m
enter_phase k w initialization m = do_phase_startup k w m
enter_phase k w window_manager m = do_phase_startup k w m
enter_phase k w panel m = do_phase_startup k w m
enter_phase k w desktop m = do_phase_startup k w m
enter_phase k w application m = do_phase_startup k w m

unfoldable pub start_phase_with : (Manager → Manager) → World → Manager → Manager
unfolding reset_phase enter_phase
start_phase_with k w m = enter_phase k w m.phase (record (reset_phase m) { query_timeout = false })

-- `end_phase` with fuel for as many phases as may end one after the other.
unfoldable pub end_phase_fuel : ℕ → World → Manager → Manager
unfolding end_phase_with start_phase_with
end_phase_fuel zero w m = m
end_phase_fuel (suc n) w m = end_phase_with (start_phase_with (end_phase_fuel n w) w) w m

unfoldable pub end_phase : World → Manager → Manager
unfolding end_phase_fuel
end_phase w m = end_phase_fuel 10 w m

unfoldable pub start_phase : World → Manager → Manager
unfolding end_phase start_phase_with
start_phase w m = start_phase_with (end_phase w) w m

-- `gsm_manager_start`.
unfoldable pub start : World → Manager → Manager
unfolding start_phase
start w m = start_phase w (record m { phase = initialization })

-- `app_registered`, connected to the signals "registered" and "exited" of an application.
unfoldable pub app_registered : World → ℕ → Manager → Manager
app_registered w id m =
    let n = record m {
      pending_apps = slist_remove id m.pending_apps;
      handlers = remove_all id m.handlers;
    } in
    if is_nil n.pending_apps then end_phase w (record n { phase_timeout = false }) else n

-- The signal "registered" or "exited" of an application, which `app_registered` hears if connected.
unfoldable pub app_signal : World → ℕ → Manager → Manager
unfolding app_registered
app_signal w id m = if contains id m.handlers then app_registered w id m else m

unfoldable pub disconnect_all : List ℕ → List ℕ → List ℕ
disconnect_all [] hs = hs
disconnect_all (a ∷ r) hs = disconnect_all r (remove_all a hs)

unfoldable pub on_phase_timeout : World → Manager → Manager
unfolding disconnect_all
on_phase_timeout w m = end_phase w (record m {
  phase_timeout = false;
  handlers =
      if ltb (phase_num m.phase) 6 then disconnect_all m.pending_apps m.handlers else m.handlers;
})

-- `do_phase_end_session_part_2`: the clients that asked to be last.
unfoldable pub end_last_clients : World → ℕ → List ℕ → Manager → Manager
unfolding client_end_session
end_last_clients w flags [] m = m
end_last_clients w flags (id ∷ r) m = end_last_clients w flags r (client_end_session w flags id m)

unfoldable pub do_phase_end_session_part_2 : World → Manager → Manager
unfolding end_last_clients end_session_flags
do_phase_end_session_part_2 w m =
    if is_nil m.next_query_clients
    then end_phase w m
    else record (end_last_clients w (end_session_flags w.auto_save m.logout_mode true)
        m.next_query_clients m) { next_query_clients = [] }
