-- ===== src/Manager/Inhibit.antt =====
-- The D-Bus methods `Inhibit` and `Uninhibit` (mate-session/gsm-manager.c).
pub mod Flags
pub mod Rest
pub mod Roundtrip
use mate_session_manager.Base.{ℕ, Option, none, some, String, if◌then◌else◌, is_string_empty, ◌==◌}
use mate_session_manager.Store
use mate_session_manager.Inhibitor.{Inhibitor, new, find_by_cookie}
use mate_session_manager.Manager.Dialogs.{remove_inhibitor}
use mate_session_manager.Manager.EndSession.{generate_unique_cookie, add_inhibitor}
use mate_session_manager.Manager.Types.{
  Manager, World, LogoutMode, normal, no_confirmation, force, Error, general,
}
use mate_session_manager.Manager.Clients.{Result, ok, err}

-- The new inhibitor, once the arguments are found good; the reply is its cookie.
unfoldable pub admit_inhibitor :
    World → Option String → ℕ → Option String → ℕ → String → Manager → Manager × Result ℕ
unfolding generate_unique_cookie add_inhibitor
admit_inhibitor w app_id toplevel_xid reason flags sender m =
    let (cookie, draws) = generate_unique_cookie w m in
    (
      add_inhibitor (new m.inhibitor_serial app_id toplevel_xid flags reason (some sender) cookie)
          (record m { draws = draws }),
      ok cookie,
    )

-- `gsm_manager_inhibit`, called by `sender`.
unfoldable pub inhibit :
    World → Option String → ℕ → Option String → ℕ → String → Manager → Manager × Result ℕ
unfolding admit_inhibitor
inhibit w app_id toplevel_xid reason flags sender m =
    let refused : Manager × Result ℕ = (m, err general) in
    let admitted : Manager × Result ℕ =
      if is_string_empty app_id
      then refused
      else if is_string_empty reason
      then refused
      else if flags == 0
      then refused
      else admit_inhibitor w app_id toplevel_xid reason flags sender m in
    elim m.logout_mode [ force ↦ refused | normal ↦ admitted | no_confirmation ↦ admitted ]

-- `gsm_manager_uninhibit`.
unfoldable pub uninhibit : World → ℕ → Manager → Manager × Result (Unit {0})
uninhibit w cookie m = elim (Store.find (find_by_cookie cookie) m.inhibitors) [
  | none ↦ (m, err general)
  | some (_, i) ↦ (remove_inhibitor w i.id m, ok tt)
]
