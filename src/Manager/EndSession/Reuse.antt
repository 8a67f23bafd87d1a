-- ===== src/Manager/EndSession/Reuse.antt =====
-- The inhibit dialog that is open already when the query of the clients is complete
-- (mate-session/gsm-manager.c, `query_end_session_complete` and `inhibit_dialog_response`).
use mate_session_manager.Base.{◌≡◌, refl, true, false, none, some, arith}
use mate_session_manager.Manager.Types.{
  Manager, World, query_end_session, LogoutAction, to_sleep, to_hibernate, to_switch_user,
  to_logout, to_shutdown, to_reboot, cancel, emit, inhibit_dialog_presented,
}
use mate_session_manager.Manager.Queries.{is_logout_inhibited, is_inhibited_by}
use mate_session_manager.Manager.Phases.Rest.{ends_session}
use mate_session_manager.Manager.Dialogs.{inhibit_dialog_response, answer}
use mate_session_manager.Manager.EndSession.{query_end_session_complete, show_inhibit_dialog}

answer_other :
    (w : World) (a : LogoutAction) (m : Manager)
    → ends_session (some a) ≡ false
    → answer w cancel a m ≡ m
unfolding answer
answer_other w to_sleep m h = refl
answer_other w to_hibernate m h = refl
answer_other w to_switch_user m h = refl
answer_other w to_logout m h = cc
answer_other w to_shutdown m h = cc
answer_other w to_reboot m h = cc

-- If a dialog about suspending, hibernating or switching users is open when the query of the clients
-- is complete with logout inhibited, that dialog is shown again in place of one about the logout.
-- When the user cancels it, the session stays in the phase of the query, with logout inhibited, no
-- timer and no dialog.
pub cancelled_reuse_strands :
    (w : World) (a : LogoutAction) (m : Manager)
    → m.phase ≡ query_end_session
    → m.inhibit_dialog ≡ some a
    → ends_session (some a) ≡ false
    → is_logout_inhibited m ≡ true
    → let n = query_end_session_complete w m in
      let o = inhibit_dialog_response w cancel n in
      (n ≡ emit inhibit_dialog_presented (record m { query_timeout = false }))
      × (o.phase ≡ query_end_session)
      × (o.query_timeout ≡ false)
      × (o.phase_timeout ≡ m.phase_timeout)
      × (o.inhibit_dialog ≡ none)
      × (is_logout_inhibited o ≡ true)
unfolding query_end_session_complete show_inhibit_dialog inhibit_dialog_response is_logout_inhibited
    is_inhibited_by
cancelled_reuse_strands w a m p d s h =
    let shown : Manager = emit inhibit_dialog_presented (record m { query_timeout = false }) in
    ground (arith, answer_other w a (record shown { inhibit_dialog = none }) s)
