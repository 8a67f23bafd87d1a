-- ===== src/Services/History/Sound.antt =====
-- Whatever is done with the services, in any order, nothing is called on a NULL pointer
-- (mate-session/gsm-consolekit.c, gsm-systemd.c).
use mate_session_manager.Base.{refl, List, [], ◌∷◌}
use mate_session_manager.Services.{Connection, Bus, ensure, fresh}
use mate_session_manager.Services.Consolekit
use mate_session_manager.Services.Systemd
use mate_session_manager.Services.Systemd.{Logind}
use mate_session_manager.Services.History.{
  Request, by_consolekit, by_systemd, consolekit_after, systemd_after, IsSound,
}
use mate_session_manager.Services.History.Blocks.{Ready-IsSound, ensure-Ready}
use mate_session_manager.Services.History.ByConsolekit.{by_consolekit-IsSound}
use mate_session_manager.Services.History.BySystemd.{by_systemd-IsSound}

consolekit_after-IsSound :
    (l : List (Bus × Request)) (c : Connection) → IsSound c → IsSound (consolekit_after l c)
consolekit_after-IsSound [] c s = s
consolekit_after-IsSound ((b, r) ∷ l) c s =
    consolekit_after-IsSound l (by_consolekit b r c) (by_consolekit-IsSound b r c s)

systemd_after-IsSound :
    (l : List (Logind × Bus × Request)) (c : Connection) → IsSound c → IsSound (systemd_after l c)
systemd_after-IsSound [] c s = s
systemd_after-IsSound ((l, b, r) ∷ rest) c s =
    systemd_after-IsSound rest (by_systemd l b r c) (by_systemd-IsSound l b r c s)

init-IsSound : (b : Bus) → IsSound (ensure b fresh).0
init-IsSound b =
    Ready-IsSound (ensure b fresh) (ensure-Ready b fresh (record { chain = refl; all_live = tt }))

-- After any history of either service, from its start on, with whatever the bus and logind answer each
-- time: every method was called on a proxy that was there, every message was sent on a connection that
-- was there, and no pointer is set without those that it is made from.
pub any_history-IsSound :
    (b : Bus) (ck : List (Bus × Request)) (sd : List (Logind × Bus × Request))
    → IsSound (consolekit_after ck (Consolekit.init b))
      × IsSound (systemd_after sd (Systemd.init b))
unfolding Consolekit.init Systemd.init
any_history-IsSound b ck sd = (
  consolekit_after-IsSound ck (ensure b fresh).0 (init-IsSound b),
  systemd_after-IsSound sd (ensure b fresh).0 (init-IsSound b),
)
