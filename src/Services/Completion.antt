-- ===== src/Services/Completion.antt =====
-- How an attempt to restart or stop the machine, suspend or hibernate it comes out
-- (mate-session/gsm-consolekit.c, gsm-systemd.c).
use mate_session_manager.Base.{
  ℕ, ◌≡◌, Bool, true, Option, none, some, List, [], ◌∷◌, ◌++◌, String, arith,
}
use mate_session_manager.Services.{
  Connection, Bus, Event, notify, called, sent, request_completed, privileges_completed, Arg, flag,
  ServiceError, restarting, stopping, ensure, requested, emit_complete, ignore,
}
use mate_session_manager.Services.Contract.{first_error, or_else, chained}
use mate_session_manager.Services.Consolekit
use mate_session_manager.Services.Systemd

-- What "request-completed" was emitted with.
abbrev pub completions : List Event → List (Option ServiceError)
completions [] = []
completions (request_completed e ∷ l) = e ∷ completions l
completions (notify b ∷ l) = completions l
completions (called live method args ∷ l) = completions l
completions (sent live path method args ∷ l) = completions l
completions (privileges_completed a b ∷ l) = completions l

-- The methods of the service that were called.
abbrev pub calls : List Event → List (Bool × String × List Arg)
calls [] = []
calls (called live method args ∷ l) = (live, method, args) ∷ calls l
calls (request_completed e ∷ l) = calls l
calls (notify b ∷ l) = calls l
calls (sent live path method args ∷ l) = calls l
calls (privileges_completed a b ∷ l) = calls l

abbrev pub coded : (ℕ → ServiceError) → Option ℕ → Option ServiceError
coded code none = none
coded code (some e) = some (code e)

-- The calls that are made where the service can be reached, or not.
abbrev pub call_unless : Option ℕ → String → List Arg → List (Bool × String × List Arg)
call_unless none method args = (true, method, args) ∷ []
call_unless (some e) method args = []

-- An attempt from a connection to another: what it says that came of it, and what it called.
abbrev pub Reports : (ℕ → ServiceError) → String → List Arg → Bus → Connection → Connection → Type 0
Reports code method args b c d =
    (completions d.log ≡ coded code (or_else (first_error b c) (b.call method)) ∷ completions c.log)
    × (calls d.log ≡ call_unless (first_error b c) method args ++ calls c.log)

abbrev pub IsSilent : String → List Arg → Bus → Connection → Connection → Type 0
IsSilent method args b c d =
    (completions d.log ≡ completions c.log)
    × (calls d.log ≡ call_unless (first_error b c) method args ++ calls c.log)

requested-Reports :
    (code : ℕ → ServiceError) (method : String) (args : List Arg) (b : Bus) (c : Connection)
    → chained c.dbus_connection c.bus_proxy c.proxy ≡ true
    → Reports code method args b c (requested (emit_complete code) method args b (ensure b c))
unfolding ensure
requested-Reports code method args b c h = ground arith

requested-IsSilent :
    (method : String) (args : List Arg) (b : Bus) (c : Connection)
    → chained c.dbus_connection c.bus_proxy c.proxy ≡ true
    → IsSilent method args b c (requested ignore method args b (ensure b c))
unfolding ensure
requested-IsSilent method args b c h = ground arith

-- Take a connection of which no pointer is set without those that it is made from. An attempt to restart
-- or stop the machine, through either service, ends in exactly one "request-completed": without an
-- error if the service was reached and took the call, and else with the error that says which
-- attempt it was and the message of the failure. The service's own method is called once, on
-- its proxy, if the service can be reached, and else not at all.
pub attempt-Reports :
    (b : Bus) (c : Connection)
    → chained c.dbus_connection c.bus_proxy c.proxy ≡ true
    → Reports restarting "Restart" [] b c (Consolekit.attempt_restart b c)
      × Reports stopping "Stop" [] b c (Consolekit.attempt_stop b c)
      × Reports restarting "Reboot" (flag true ∷ []) b c (Systemd.attempt_restart b c)
      × Reports stopping "PowerOff" (flag true ∷ []) b c (Systemd.attempt_stop b c)
unfolding Consolekit.attempt_restart Consolekit.attempt_stop Systemd.attempt_restart
    Systemd.attempt_stop Consolekit.emit_restart_complete Consolekit.emit_stop_complete
    Systemd.emit_restart_complete Systemd.emit_stop_complete
attempt-Reports b c h = (
  requested-Reports restarting "Restart" [] b c h,
  requested-Reports stopping "Stop" [] b c h,
  requested-Reports restarting "Reboot" (flag true ∷ []) b c h,
  requested-Reports stopping "PowerOff" (flag true ∷ []) b c h,
)

-- Under the same condition, an attempt to suspend or hibernate calls the service in the same way, and
-- nobody is told how it came out.
pub attempt-IsSilent :
    (b : Bus) (c : Connection)
    → chained c.dbus_connection c.bus_proxy c.proxy ≡ true
    → IsSilent "Suspend" (flag true ∷ []) b c (Consolekit.attempt_suspend b c)
      × IsSilent "Hibernate" (flag true ∷ []) b c (Consolekit.attempt_hibernate b c)
      × IsSilent "Suspend" (flag true ∷ []) b c (Systemd.attempt_suspend b c)
      × IsSilent "Hibernate" (flag true ∷ []) b c (Systemd.attempt_hibernate b c)
unfolding Consolekit.attempt_suspend Consolekit.attempt_hibernate Systemd.attempt_suspend
    Systemd.attempt_hibernate
attempt-IsSilent b c h = (
  requested-IsSilent "Suspend" (flag true ∷ []) b c h,
  requested-IsSilent "Hibernate" (flag true ∷ []) b c h,
  requested-IsSilent "Suspend" (flag true ∷ []) b c h,
  requested-IsSilent "Hibernate" (flag true ∷ []) b c h,
)
