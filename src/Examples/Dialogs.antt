-- ===== src/Examples/Dialogs.antt =====
-- Dialogs of mate-session/gsm-logout-dialog.c and watches of mate-session/gs-idle-monitor.c at concrete
-- values.
use mate_session_manager.Base.{
  ℕ, ◌-◌, ◌≤◌, ◌<◌, ◌^◌, ◌≡◌, ◌≢◌, refl, true, false, none, some, [], ◌∷◌, contains, keep, pos,
  arith,
}
use mate_session_manager.Manager.Types.{ask_shutdown}
use mate_session_manager.LogoutDialog.{
  Dialog, System, Seat, shutdown, new_dialog, set_timeout, seconds,
}
use mate_session_manager.LogoutDialog.Countdown.{countdown_fires}
use mate_session_manager.LogoutDialog.Buttons.{offers, unsupported_shutdown_fires}
use mate_session_manager.IdleMonitor.{
  Monitor, new, add_watch, dispose, handle_alarm_notify_event, with_id,
}
use mate_session_manager.IdleMonitor.Sound.{IsSound, xids, alarms_of}
use mate_session_manager.IdleMonitor.Sound.Alarms.{
  AreFresh, History, start, added, history-IsSound, add_watch-notifies,
}

-- A user that may suspend, and nothing else.
abbrev seated : Seat
seated = record {
  can_suspend = true;
  can_hibernate = false;
  can_switch_user = false;
  can_restart = false;
  can_stop = false;
}

abbrev pub system : System
system = record {
  logind_running = true;
  systemd = seated;
  consolekit = seated;
  disable_user_switching = false;
  mdm_reboot = false;
  mdm_shutdown = false;
}

abbrev dialog : Dialog
dialog = new_dialog system shutdown

countdown_fires_example :
    let s = set_timeout (pos 60) dialog in
    ((k : ℕ) → k ≤ 59 → ((seconds k s).responses ≡ []) × ((seconds k s).text ≡ some (pos (60 - k))))
    × ((k : ℕ) → 60 ≤ k → (seconds k s).responses ≡ dialog.default_response ∷ [])
unfolding new_dialog
countdown_fires_example = countdown_fires 59 dialog refl

unsupported_shutdown_fires_example :
    (offers ask_shutdown dialog ≡ false)
    × ((seconds 60 (set_timeout (pos 60) dialog)).responses ≡ ask_shutdown ∷ [])
unsupported_shutdown_fires_example = unsupported_shutdown_fires system 59 refl refl

-- A watch with the alarms 21 and 22, and then one with 23 and 24.
fresh_alarms : AreFresh 21 22 new
fresh_alarms = (omega arith, omega arith, omega arith, refl, refl)

abbrev one : Monitor
one = (add_watch 21 22 5000 1 new).0

one_lived : History one
one_lived = added 21 22 5000 1 new start fresh_alarms

history-IsSound_example :
    IsSound one
    × (1 ≤ one.watch_serial)
    × (one.watch_serial < 2 ^ 31)
    × ((a : ℕ) → a ≢ 0 → contains a (xids (dispose one).alarms) ≡ false)
history-IsSound_example = history-IsSound one one_lived

more_alarms : AreFresh 23 24 one
unfolding add_watch
more_alarms = (omega arith, omega arith, omega arith, refl, refl)

add_watch-notifies_example :
    let (after, id) = add_watch 23 24 9000 2 one in
    (handle_alarm_notify_event false 23 after ≡ some (2, id, true))
    × (handle_alarm_notify_event false 24 after ≡ some (2, id, false))
    × ((a : ℕ)
        → a ≢ 23
        → a ≢ 24
        → contains a (alarms_of (keep (with_id id) one.watches)) ≡ false
        → handle_alarm_notify_event false a after ≡ handle_alarm_notify_event false a one)
    × ((a : ℕ) → handle_alarm_notify_event true a after ≡ none)
add_watch-notifies_example = add_watch-notifies 23 24 9000 2 one one_lived more_alarms
