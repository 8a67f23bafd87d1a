-- ===== src/Examples/Buses.antt =====
-- The services of mate-session/gsm-consolekit.c and gsm-systemd.c on a small bus.
use mate_session_manager.Base.{
  ◌≡◌, refl, ◌↔◌, true, false, none, some, [], ◌∷◌, pos, ◌||◌, if◌then◌else◌, strcmp_eq,
}
use mate_session_manager.Manager.Types.{ask_shutdown, ask_reboot, ask_hibernate, ask_sleep}
use mate_session_manager.LogoutDialog.{shutdown, new_dialog}
use mate_session_manager.LogoutDialog.Buttons.{offers}
use mate_session_manager.Services.{
  Bus, Connection, answered, failed, replied, refused, fresh, ensure, flag, restarting, stopping,
  free_dbus,
}
use mate_session_manager.Services.Consolekit
use mate_session_manager.Services.Systemd
use mate_session_manager.Services.Systemd.{Logind, is_last_session_for_user}
use mate_session_manager.Services.Contract.{disconnect_unseen}
use mate_session_manager.Services.Completion.{Reports, attempt-Reports}
use mate_session_manager.Services.History.{
  restarts, message_arrives, asks_switch_user, says_idle, owner_changes, consolekit_after,
  systemd_after, IsSound,
}
use mate_session_manager.Services.History.Sound.{any_history-IsSound}
use mate_session_manager.Services.Sessions.{is_last_session_for_user_iff, IsLast}
use mate_session_manager.Services.Seats.{dialog-asks_systemd, systemd_seat, says_may}
use mate_session_manager.Examples.Dialogs.{system}

-- Everything works, but for the call that turns the machine off; logind would ask for a password.
abbrev pub bus : Bus
bus = record {
  bus_get = none;
  new_bus_proxy = none;
  new_proxy = none;
  call = λ method. if strcmp_eq method "PowerOff" then some 7 else none;
  ask_bool = λ _. answered true;
  ask_text = λ method. if strcmp_eq method "CanSuspend" then answered "challenge" else failed 3;
  message = λ _ _ _. replied "/Session1";
  message_bool = λ _ _. refused;
}

abbrev pub logind : Logind
logind = record {
  pid_get_session = (pos 0, some "c1");
  uid_get_sessions = (pos 2, some ("c1" ∷ "c2" ∷ []));
  session_get_state = λ _. (pos 0, some "closing");
  session_get_type = λ _. (pos 0, some "x11");
  session_get_class = λ _. (pos 0, some "user");
  session_get_seat = λ _. some "seat0";
  seat_can_multi_session = λ _. pos 1;
}

-- The bus was left; the property is still set.
abbrev lost : Connection
lost = free_dbus (ensure bus fresh).0

disconnect_unseen_example :
    let d = (Consolekit.dbus_filter true (ensure bus fresh).0).0 in
    (d ≡ (Systemd.dbus_filter true (ensure bus fresh).0).0)
    × (d.dbus_connection ≡ false)
    × (d.proxy ≡ false)
    × (d.is_connected ≡ true)
    × (d.log ≡ (ensure bus fresh).0.log)
    × ((ensure bus d).0.log ≡ (ensure bus fresh).0.log)
unfolding ensure
disconnect_unseen_example = disconnect_unseen bus (ensure bus fresh).0 refl refl

attempt-Reports_example :
    Reports restarting "Restart" [] bus fresh (Consolekit.attempt_restart bus fresh)
    × Reports stopping "Stop" [] bus fresh (Consolekit.attempt_stop bus fresh)
    × Reports restarting "Reboot" (flag true ∷ []) bus fresh (Systemd.attempt_restart bus fresh)
    × Reports stopping "PowerOff" (flag true ∷ []) bus fresh (Systemd.attempt_stop bus fresh)
attempt-Reports_example = attempt-Reports bus fresh refl

any_history-IsSound_example :
    IsSound (
      consolekit_after
        ((bus, restarts) ∷ (bus, message_arrives true) ∷ (bus, asks_switch_user) ∷ [])
        (Consolekit.init bus))
    × IsSound (
        systemd_after
          ((logind, bus, says_idle true) ∷ (logind, bus, owner_changes none) ∷ [])
          (Systemd.init bus))
any_history-IsSound_example =
    any_history-IsSound bus
      ((bus, restarts) ∷ (bus, message_arrives true) ∷ (bus, asks_switch_user) ∷ [])
      ((logind, bus, says_idle true) ∷ (logind, bus, owner_changes none) ∷ [])

is_last_session_for_user_iff_example :
    (is_last_session_for_user logind ≡ true) ↔ IsLast logind (pos 0, some "c1")
is_last_session_for_user_iff_example = is_last_session_for_user_iff logind

dialog-asks_systemd_example :
    let d =
      new_dialog
        (record system { logind_running = true; systemd = systemd_seat bus logind fresh })
        shutdown in
    (offers ask_sleep d ≡ says_may bus fresh "CanSuspend")
    × (offers ask_hibernate d ≡ says_may bus fresh "CanHibernate")
    × (offers ask_reboot d ≡ says_may bus fresh "CanReboot" || system.mdm_reboot)
    × (offers ask_shutdown d ≡ says_may bus fresh "CanPowerOff" || system.mdm_shutdown)
dialog-asks_systemd_example = dialog-asks_systemd bus fresh refl logind system

-- Of the three ways to leave only suspending is offered.
suspend_offered : says_may bus fresh "CanSuspend" ≡ true
suspend_offered = refl
