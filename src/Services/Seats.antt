-- ===== src/Services/Seats.antt =====
-- What the services answer to the logout dialog (mate-session/gsm-logout-dialog.c), which asks them afresh
-- for each button (mate-session/gsm-consolekit.c, gsm-systemd.c).
use mate_session_manager.Base.{
  ℕ, ◌≡◌, refl, ap, ◌∙◌, Bool, true, false, ◌&&◌, ◌||◌, Option, none, some, String,
}
use mate_session_manager.Manager.Types.{ask_shutdown, ask_reboot, ask_hibernate, ask_sleep}
use mate_session_manager.LogoutDialog.{Seat, System, shutdown, new_dialog}
use mate_session_manager.LogoutDialog.Buttons.{offers, offers_lem}
use mate_session_manager.Services.{Connection, Bus, Answer, ensure, asked, judged, is_true, may}
use mate_session_manager.Services.Contract.{first_error, is_none, chained, ensure_lem}
use mate_session_manager.Services.Consolekit
use mate_session_manager.Services.Systemd
use mate_session_manager.Services.Systemd.{Logind}

abbrev pub systemd_seat : Bus → Logind → Connection → Seat
systemd_seat b l c = record {
  can_suspend = (Systemd.can_suspend b c).1;
  can_hibernate = (Systemd.can_hibernate b c).1;
  can_switch_user = (Systemd.can_switch_user b l c).1;
  can_restart = (Systemd.can_restart b c).1;
  can_stop = (Systemd.can_stop b c).1;
}

abbrev pub consolekit_seat : Bus → Connection → Seat
consolekit_seat b c = record {
  can_suspend = (Consolekit.can_suspend b c).1;
  can_hibernate = (Consolekit.can_hibernate b c).1;
  can_switch_user = (Consolekit.can_switch_user b c).1;
  can_restart = (Consolekit.can_restart b c).1;
  can_stop = (Consolekit.can_stop b c).1;
}

-- The service can be reached, and answers by a text that allows it, or by TRUE.
abbrev pub says_may : Bus → Connection → String → Bool
says_may b c method = is_none (first_error b c) && judged may (b.ask_text method)

abbrev pub says_true : Bus → Connection → String → Bool
says_true b c method = is_none (first_error b c) && judged is_true (b.ask_bool method)

asked_lem :
    {A : Type 0} (answer : Bus → String → Answer A) (test : A → Bool) (method : String) (b : Bus)
    (r : Connection × Option ℕ)
    → (asked answer test method b r).1 ≡ is_none r.1 && judged test (answer b method)
asked_lem answer test method b (c, none) = refl
asked_lem answer test method b (c, some e) = refl

module _ (b : Bus) (c : Connection) (h : chained c.dbus_connection c.bus_proxy c.proxy ≡ true) where
  asked-may :
      (method : String)
      → (asked (λ b. b.ask_text) may method b (ensure b c)).1 ≡ says_may b c method
  asked-may method =
      asked_lem (λ b. b.ask_text) may method b (ensure b c)
      ∙ ap (λ (e : Option ℕ). is_none e && judged may (b.ask_text method)) ((ensure_lem b c h).0)

  asked-is_true :
      (method : String)
      → (asked (λ b. b.ask_bool) is_true method b (ensure b c)).1 ≡ says_true b c method
  asked-is_true method =
      asked_lem (λ b. b.ask_bool) is_true method b (ensure b c)
      ∙ ap (λ (e : Option ℕ). is_none e && judged is_true (b.ask_bool method))
          ((ensure_lem b c h).0)

  -- systemd-logind runs, and the connection to it, of which no pointer is set without those that it is
  -- made from, is asked for each button. The shut down dialog then offers to suspend, and to
  -- hibernate, exactly if logind can be reached and answers "yes" or "challenge"; and to reboot, and
  -- to shut down, exactly then or if the display manager offers it.
  pub dialog-asks_systemd :
      (l : Logind) (sys : System)
      → let d =
          new_dialog
            (record sys { logind_running = true; systemd = systemd_seat b l c })
            shutdown in
        (offers ask_sleep d ≡ says_may b c "CanSuspend")
        × (offers ask_hibernate d ≡ says_may b c "CanHibernate")
        × (offers ask_reboot d ≡ says_may b c "CanReboot" || sys.mdm_reboot)
        × (offers ask_shutdown d ≡ says_may b c "CanPowerOff" || sys.mdm_shutdown)
  unfolding Systemd.can_suspend Systemd.can_hibernate Systemd.can_restart Systemd.can_stop
  dialog-asks_systemd l sys =
      let s = record sys { logind_running = true; systemd = systemd_seat b l c } in
      (
        offers_lem s shutdown ask_sleep ∙ asked-may "CanSuspend",
        offers_lem s shutdown ask_hibernate ∙ asked-may "CanHibernate",
        offers_lem s shutdown ask_reboot
            ∙ ap (λ (x : Bool). x || sys.mdm_reboot) (asked-may "CanReboot"),
        offers_lem s shutdown ask_shutdown
            ∙ ap (λ (x : Bool). x || sys.mdm_shutdown) (asked-may "CanPowerOff"),
      )

  -- The same where logind does not run, with ConsoleKit, which answers TRUE or FALSE about restarting and
  -- stopping the machine.
  pub dialog-asks_consolekit :
      (sys : System)
      → let d =
          new_dialog
            (record sys { logind_running = false; consolekit = consolekit_seat b c })
            shutdown in
        (offers ask_sleep d ≡ says_may b c "CanSuspend")
        × (offers ask_hibernate d ≡ says_may b c "CanHibernate")
        × (offers ask_reboot d ≡ says_true b c "CanRestart" || sys.mdm_reboot)
        × (offers ask_shutdown d ≡ says_true b c "CanStop" || sys.mdm_shutdown)
  unfolding Consolekit.can_suspend Consolekit.can_hibernate Consolekit.can_restart
      Consolekit.can_stop
  dialog-asks_consolekit sys =
      let s = record sys { logind_running = false; consolekit = consolekit_seat b c } in
      (
        offers_lem s shutdown ask_sleep ∙ asked-may "CanSuspend",
        offers_lem s shutdown ask_hibernate ∙ asked-may "CanHibernate",
        offers_lem s shutdown ask_reboot
            ∙ ap (λ (x : Bool). x || sys.mdm_reboot) (asked-is_true "CanRestart"),
        offers_lem s shutdown ask_shutdown
            ∙ ap (λ (x : Bool). x || sys.mdm_shutdown) (asked-is_true "CanStop"),
      )
