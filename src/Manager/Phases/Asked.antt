-- ===== src/Manager/Phases/Asked.antt =====
-- Which clients are asked when the session ends, and which are told (mate-session/gsm-manager.c):
-- the phases QUERY_END_SESSION and END_SESSION as the ones before them lead there.
use mate_session_manager.Base.{
  ℕ, ◌+◌, ◌≡◌, refl, ap, ◌∙◌, Bool, true, false, ◌&&◌, ◌||◌, List, [], ◌∷◌, arith, if◌then◌else◌,
  contains, ◌==◌,
}
use mate_session_manager.Client.{Client}
use mate_session_manager.Manager.Types.{
  Manager, World, Phase, running, query_end_session, end_session, next_phase, Effect, client_query,
  client_end, LogoutMode, force, normal, no_confirmation,
}
use mate_session_manager.Manager.Phases.{
  end_phase, end_phase_with, start_phase_with, leave_phase, enter_phase, reset_phase, start_phase,
  do_phase_query_end_session, do_phase_end_session, query_all, client_query_end_session,
  end_clients, client_end_session, end_session_flags,
}
use mate_session_manager.Manager.Phases.Fuel.{end_phase_unrolls}

-- The state in which the clients are asked.
abbrev pub asking : Manager → Manager
asking m = record (reset_phase m) { phase = query_end_session; query_timeout = false }

leave_running :
    (w : World) (p : Phase) (m : Manager)
    → p ≡ running
    → m.phase ≡ p
    → leave_phase (start_phase w) w p (reset_phase m)
      ≡ (if w.log_out_disabled then reset_phase m else do_phase_query_end_session w (asking m))
unfolding leave_phase start_phase start_phase_with enter_phase reset_phase next_phase
leave_running w running m e h =
    ap
      (λ q.
        if w.log_out_disabled
        then reset_phase m
        else start_phase w (record (reset_phase m) { phase = q }))
      (ap next_phase h)
leave_running w _ m e h = cc

-- The end of the phase RUNNING is the query of the clients, unless logging out is locked down.
pub end_running :
    (w : World) (m : Manager)
    → m.phase ≡ running
    → end_phase w m
      ≡ (if w.log_out_disabled then reset_phase m else do_phase_query_end_session w (asking m))
unfolding end_phase_with
end_running w m e = (end_phase_unrolls w m).0 ∙ leave_running w m.phase m e refl

abbrev pub is_client : ℕ → List (ℕ × Client) → Bool
is_client id [] = false
is_client id ((_, c) ∷ r) = (c.id == id) || is_client id r

pub query_all_lem :
    (w : World) (flags id : ℕ) (l : List (ℕ × Client)) (m : Manager)
    → contains id (query_all w flags l m).query_clients
      ≡ ((is_client id l && w.query_sent id) || contains id m.query_clients)
unfolding query_all client_query_end_session
query_all_lem w flags id [] m = refl
query_all_lem w flags id ((_, c) ∷ r) m =
    ground (arith, query_all_lem w flags id r (client_query_end_session w flags c.id m))

pub end_clients_lem :
    (w : World) (flags id : ℕ) (l : List (ℕ × Client)) (m : Manager)
    → contains id (end_clients w flags l m).query_clients
      ≡ ((is_client id l && w.end_sent id) || contains id m.query_clients)
unfolding end_clients client_end_session
end_clients_lem w flags id [] m = refl
end_clients_lem w flags id ((_, c) ∷ r) m =
    ground (arith, end_clients_lem w flags id r (client_end_session w flags c.id m))

-- Each client gets a message, in the order of the store; the latest is first.
abbrev pub each_gets : (ℕ → Effect) → List (ℕ × Client) → List Effect → List Effect
each_gets message [] es = es
each_gets message ((_, c) ∷ r) es = each_gets message r (message c.id ∷ es)

pub query_all-effects :
    (w : World) (flags : ℕ) (l : List (ℕ × Client)) (m : Manager)
    → (query_all w flags l m).effects ≡ each_gets (λ id. client_query id flags) l m.effects
unfolding query_all client_query_end_session
query_all-effects w flags [] m = refl
query_all-effects w flags ((_, c) ∷ r) m =
    ground (arith, query_all-effects w flags r (client_query_end_session w flags c.id m))

pub end_clients-effects :
    (w : World) (flags : ℕ) (l : List (ℕ × Client)) (m : Manager)
    → (end_clients w flags l m).effects ≡ each_gets (λ id. client_end id flags) l m.effects
unfolding end_clients client_end_session
end_clients-effects w flags [] m = refl
end_clients-effects w flags ((_, c) ∷ r) m =
    ground (arith, end_clients-effects w flags r (client_end_session w flags c.id m))

-- The flag FORCEFUL of a mode, and SAVE where the settings want it.
abbrev pub forceful : LogoutMode → ℕ
forceful force = 1
forceful normal = 0
forceful no_confirmation = 0

abbrev pub saving : Bool → ℕ
saving true = 2
saving false = 0

pub flags_lem :
    (save : Bool) (mode : LogoutMode)
    → end_session_flags save mode false ≡ forceful mode + saving save
unfolding end_session_flags
flags_lem true normal = refl
flags_lem true no_confirmation = refl
flags_lem true force = refl
flags_lem false normal = refl
flags_lem false no_confirmation = refl
flags_lem false force = refl

-- The state in which the clients are told.
abbrev pub telling : Manager → Manager
telling m = record (reset_phase m) { phase = end_session; query_timeout = false }

leave_query :
    (w : World) (p : Phase) (m : Manager)
    → p ≡ query_end_session
    → m.phase ≡ p
    → leave_phase (start_phase w) w p (reset_phase m)
      ≡ do_phase_end_session (end_phase w) w (telling m)
unfolding leave_phase start_phase start_phase_with enter_phase reset_phase next_phase
leave_query w query_end_session m e h =
    ap (λ q. start_phase w (record (reset_phase m) { phase = q })) (ap next_phase h)
leave_query w _ m e h = cc

-- The end of the phase of the query is the phase in which the clients are told.
pub end_query :
    (w : World) (m : Manager)
    → m.phase ≡ query_end_session
    → end_phase w m ≡ do_phase_end_session (end_phase w) w (telling m)
unfolding end_phase_with
end_query w m e = (end_phase_unrolls w m).0 ∙ leave_query w m.phase m e refl
