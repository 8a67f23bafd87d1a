-- ===== src/Manager/Inhibit/Rest.antt =====
-- The two D-Bus methods of inhibition lead from rest to rest (mate-session/gsm-manager.c).
use mate_session_manager.Base.{ℕ, Option, String, arith, Option-cases, inl, inr}
use mate_session_manager.Store
use mate_session_manager.Inhibitor.{find_by_cookie}
use mate_session_manager.Manager.Types.{Manager, World}
use mate_session_manager.Manager.Phases.Rest.{IsAtRest}
use mate_session_manager.Manager.Dialogs.Rest.{KeepsControl-IsAtRest, remove_inhibitor-IsAtRest}
use mate_session_manager.Manager.EndSession.{generate_unique_cookie}
use mate_session_manager.Manager.EndSession.Rest.{add_inhibitor-KeepsControl}
use mate_session_manager.Manager.Inhibit.{admit_inhibitor, inhibit, uninhibit}

admit_inhibitor-IsAtRest :
    (w : World) (app_id : Option String) (xid : ℕ) (reason : Option String) (flags : ℕ)
    (sender : String) (m : Manager)
    → IsAtRest m
    → IsAtRest (admit_inhibitor w app_id xid reason flags sender m).0
unfolding admit_inhibitor
admit_inhibitor-IsAtRest w app_id xid reason flags sender m r =
    let drawn : Manager = record m { draws = (generate_unique_cookie w m).1 } in
    let q : IsAtRest drawn = ground arith in
    let (k, d) = add_inhibitor-KeepsControl _ drawn in KeepsControl-IsAtRest {m = drawn} k d q

pub inhibit-IsAtRest :
    (w : World) (app_id : Option String) (xid : ℕ) (reason : Option String) (flags : ℕ)
    (sender : String) (m : Manager)
    → IsAtRest m
    → IsAtRest (inhibit w app_id xid reason flags sender m).0
unfolding inhibit
inhibit-IsAtRest w app_id xid reason flags sender m r =
    ground (arith, admit_inhibitor-IsAtRest w app_id xid reason flags sender m r)

pub uninhibit-IsAtRest :
    (w : World) (cookie : ℕ) (m : Manager) → IsAtRest m → IsAtRest (uninhibit w cookie m).0
unfolding uninhibit
uninhibit-IsAtRest w cookie m r =
    elim (Option-cases (Store.find (find_by_cookie cookie) m.inhibitors)) [
      | inl e ↦ rw (e, uninhibit) r
      | inr ((key, i), e) ↦ rw (e, uninhibit) (remove_inhibitor-IsAtRest w i.id m r)
    ]
