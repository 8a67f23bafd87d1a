-- ===== src/Examples/Clients.antt =====
-- XSMP clients of mate-session/gsm-xsmp-client.c at concrete states.
use mate_session_manager.Base.{pos, ℕ, ◌≡◌, refl, true, false, [], ◌∷◌, nat_eq}
use mate_session_manager.Xsmp.{
  no_save, SmLib, responds, save_complete, Xsmp, connect, do_save_yourself, xsmp_query_end_session,
  save_yourself_done_callback,
}
use mate_session_manager.Xsmp.Queue.{IsSm, queued_query_is_lost}
use mate_session_manager.Xsmp.Properties.{Property}

abbrev sm : SmLib
sm = record { save_global = pos 0; save_local = pos 1; save_both = pos 2 }

sm-IsSm : IsSm sm
sm-IsSm = record { is_global = refl; is_local = refl; is_both = refl }

-- A client that saves its state.
abbrev saving : Xsmp
saving = record connect { current_save_yourself = pos 1 }

queued_query_is_lost_example :
    let d = save_yourself_done_callback sm (xsmp_query_end_session sm 0 saving).0 in
    (d.log ≡ responds true false false false ∷ save_complete ∷ [])
    × (d.current_save_yourself ≡ no_save)
    × (do_save_yourself sm (pos 2) false d ≡ d)
queued_query_is_lost_example = queued_query_is_lost sm 0 (pos 2) false saving sm-IsSm refl refl refl

abbrev property : ℕ → ℕ → Property ℕ ℕ
property n v = record { name = n; kind = 0; vals = v }
