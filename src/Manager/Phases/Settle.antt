-- ===== src/Manager/Phases/Settle.antt =====
-- From wherever `end_phase` and `start_phase` may be called, they settle in a state of rest.
use mate_session_manager.Base.{
  ℕ, zero, suc, ◌+◌, ◌<◌, ◌≡◌, refl, ap, inl, inr, true, false, List, [], ◌∷◌, arith, is_nil, ltb,
  Bool-cases, if◌then◌else◌,
}
use mate_session_manager.Store
use mate_session_manager.Manager.Queries.{update_idle}
use mate_session_manager.Manager.Types.{
  Manager, World, Phase, running, query_end_session, end_session, exit, phase_num, next_phase,
  is_waiting_phase, App,
}
use mate_session_manager.Manager.Phases.{
  start_app, start_apps, do_phase_startup, do_phase_end_session, do_phase_exit,
  do_phase_query_end_session, end_session_flags, maybe_restart_user_bus, maybe_save_session,
  leave_phase, enter_phase, quit, reset_phase, end_phase_with, start_phase_with, end_phase_fuel,
  end_phase, start_phase,
}
use mate_session_manager.Manager.Phases.Frame.{
  IsFramed, start_apps-IsFramed, stop_clients-IsFramed, end_clients-IsFramed, query_all-IsFramed,
  stop_clients-KeepsApps, end_clients-KeepsApps, query_all-KeepsApps,
}
use mate_session_manager.Manager.Phases.Fuel.{phase_num-le}
use mate_session_manager.Manager.Phases.Rest.{AllPending, IsAtRest, CanEnd, CanStart}

AllPending-cons :
    (h : ℕ) (hs pending : List ℕ) → AllPending hs pending → AllPending hs (h ∷ pending)
AllPending-cons h [] pending a = tt
AllPending-cons h (g ∷ hs) pending a = ground (arith, AllPending-cons h hs pending a.1)

pub AllPending-nil : (hs pending : List ℕ) → is_nil pending ≡ true → AllPending hs pending → hs ≡ []
AllPending-nil [] pending e a = refl
AllPending-nil (h ∷ hs) [] e a = cc
AllPending-nil (h ∷ hs) (p ∷ ps) e a = cc

start_app-AllPending :
    (w : World) (a : App) (m : Manager)
    → AllPending m.handlers m.pending_apps
    → AllPending (start_app w a m).handlers (start_app w a m).pending_apps
unfolding start_app
start_app-AllPending w a m h = ground (arith, AllPending-cons a.id m.handlers m.pending_apps h)

start_apps-AllPending :
    (w : World) (l : List (ℕ × App)) (m : Manager)
    → AllPending m.handlers m.pending_apps
    → AllPending (start_apps w l m).handlers (start_apps w l m).pending_apps
unfolding start_apps
start_apps-AllPending w [] m h = h
start_apps-AllPending w ((_, a) ∷ r) m h =
    start_apps-AllPending w r (start_app w a m) (start_app-AllPending w a m h)

-- Only the phases up to DESKTOP wait for their applications.
start_apps-pending :
    (w : World) (l : List (ℕ × App)) (m : Manager)
    → is_waiting_phase m.phase ≡ false
    → (start_apps w l m).pending_apps ≡ m.pending_apps
unfolding start_apps start_app
start_apps-pending w [] m h = refl
start_apps-pending w ((_, a) ∷ r) m h = ground (arith, start_apps-pending w r (start_app w a m))

-- A function that settles from the states of one phase from which `end_phase` may be called.
abbrev Settles : (Manager → Manager) → Phase → Type 0
Settles k p = (x : Manager) → x.phase ≡ p → CanEnd x → IsAtRest (k x)

-- The state in which the `switch` of `start_phase` runs.
record IsReset (m : Manager) : Type 0 where
  can : CanStart m
  pending : m.pending_apps ≡ []
  phase_timer : m.phase_timeout ≡ false
  query_timer : m.query_timeout ≡ false

startup_waits-IsAtRest :
    (m n : Manager)
    → phase_num m.phase < 6
    → IsReset m
    → IsFramed m n
    → AllPending n.handlers n.pending_apps
    → (is_waiting_phase m.phase ≡ false → n.pending_apps ≡ m.pending_apps)
    → is_nil n.pending_apps ≡ false
    → IsAtRest (if is_waiting_phase n.phase then record n { phase_timeout = true } else n)
startup_waits-IsAtRest m n lt r f a q e = elim (Bool-cases (is_waiting_phase m.phase)) [
  | inl b ↦ rw (f.phase, b) (ground arith)
  | inr b ↦ ground arith
]

do_phase_startup-IsAtRest :
    (k : Manager → Manager) (w : World) (m : Manager)
    → phase_num m.phase < 6
    → Settles k m.phase
    → IsReset m
    → IsAtRest (do_phase_startup k w m)
unfolding do_phase_startup
do_phase_startup-IsAtRest k w m lt s r =
    let n : Manager = start_apps w m.apps.objects m in
    let f : IsFramed m n = start_apps-IsFramed w m.apps.objects m in
    let a : AllPending n.handlers n.pending_apps =
      start_apps-AllPending w m.apps.objects m (ground arith) in
    elim (Bool-cases (is_nil n.pending_apps)) [
      | inl e ↦ rw e (s n f.phase (ground (arith, AllPending-nil n.handlers n.pending_apps e a)))
      | inr e ↦ rw e (startup_waits-IsAtRest m n lt r f a (start_apps-pending w m.apps.objects m) e)
    ]

do_phase_query-IsAtRest :
    (w : World) (m : Manager)
    → m.phase ≡ query_end_session
    → IsReset m
    → IsAtRest (do_phase_query_end_session w m)
unfolding do_phase_query_end_session
do_phase_query-IsAtRest w m p r = ground (
  arith,
  query_all-IsFramed w (end_session_flags false m.logout_mode false) m.clients.objects m,
  query_all-KeepsApps w (end_session_flags false m.logout_mode false) m.clients.objects m,
)

do_phase_end_session-IsAtRest :
    (k : Manager → Manager) (w : World) (m : Manager)
    → m.phase ≡ end_session
    → Settles k end_session
    → IsReset m
    → IsAtRest (do_phase_end_session k w m)
unfolding do_phase_end_session
do_phase_end_session-IsAtRest k w m p s r =
    let flags : ℕ = end_session_flags w.auto_save m.logout_mode false in
    let n : Manager = record m { phase_timeout = true } in
    elim (Bool-cases (ltb 0 (Store.size m.clients))) [
      | inl e ↦ rw e (
          ground (
            arith,
            end_clients-IsFramed w flags n.clients.objects n,
            end_clients-KeepsApps w flags n.clients.objects n,
          ))
      | inr e ↦ rw e (s (record m { phase_timeout = false }) p (ground arith))
    ]

do_phase_exit-IsAtRest :
    (k : Manager → Manager) (w : World) (m : Manager)
    → m.phase ≡ exit
    → Settles k exit
    → IsReset m
    → IsAtRest (do_phase_exit k w m)
unfolding do_phase_exit maybe_restart_user_bus
do_phase_exit-IsAtRest k w m p s r =
    s _ (ground (arith, stop_clients-IsFramed m.clients.objects m)) (
      ground (
        arith,
        stop_clients-IsFramed m.clients.objects m,
        stop_clients-KeepsApps m.clients.objects m,
      ))

enter_phase-IsAtRest :
    (k : Manager → Manager) (w : World) (p : Phase) (m : Manager)
    → m.phase ≡ p
    → Settles k p
    → IsReset m
    → IsAtRest (enter_phase k w p m)
unfolding enter_phase update_idle
enter_phase-IsAtRest k w running m e s r = ground arith
enter_phase-IsAtRest k w query_end_session m e s r = do_phase_query-IsAtRest w m e r
enter_phase-IsAtRest k w end_session m e s r = do_phase_end_session-IsAtRest k w m e s r
enter_phase-IsAtRest k w exit m e s r = do_phase_exit-IsAtRest k w m e s r
enter_phase-IsAtRest k w _ m e s r = do_phase_startup-IsAtRest k w m (ground arith) (rw e s) r

start_phase_with-IsAtRest :
    (k : Manager → Manager) (w : World) (m : Manager)
    → Settles k m.phase
    → CanStart m
    → IsAtRest (start_phase_with k w m)
unfolding start_phase_with reset_phase
start_phase_with-IsAtRest k w m s c = enter_phase-IsAtRest k w m.phase _ refl s (ground arith)

quit-IsAtRest :
    (m : Manager)
    → m.phase ≡ exit
    → CanEnd m
    → m.phase_timeout ≡ false
    → m.pending_apps ≡ []
    → IsAtRest (quit m)
unfolding quit
quit-IsAtRest m e c t p = ground arith

-- A function that settles wherever `start_phase` may be called, in the phase after `p`.
abbrev SettlesAfter : (Manager → Manager) → Phase → Type 0
SettlesAfter s p =
    (x : Manager)
    → x.phase ≡ next_phase p
    → phase_num x.phase ≡ suc (phase_num p)
    → CanStart x
    → IsAtRest (s x)

leave_phase-IsAtRest :
    (s : Manager → Manager) (w : World) (p : Phase) (m : Manager)
    → m.phase ≡ p
    → SettlesAfter s p
    → CanEnd m
    → m.phase_timeout ≡ false
    → m.pending_apps ≡ []
    → IsAtRest (leave_phase s w p m)
unfolding leave_phase next_phase maybe_save_session
leave_phase-IsAtRest s w running m e h c t q = elim (Bool-cases w.log_out_disabled) [
  | inl b ↦ rw b (ground arith)
  | inr b ↦ rw b (h _ (ground arith) (ground arith) (ground arith))
]
leave_phase-IsAtRest s w end_session m e h c t q = h _ (ground arith) (ground arith) (ground arith)
leave_phase-IsAtRest s w exit m e h c t q = quit-IsAtRest m e c t q
leave_phase-IsAtRest s w _ m e h c t q = h _ (ground arith) (ground arith) (ground arith)

end_phase_fuel-IsAtRest :
    (n : ℕ) (w : World) (m : Manager)
    → 9 < n + phase_num m.phase
    → CanEnd m
    → IsAtRest (end_phase_fuel n w m)
unfolding end_phase_fuel end_phase_with reset_phase
end_phase_fuel-IsAtRest zero w m h c = absurd (omega (arith, phase_num-le m.phase))
end_phase_fuel-IsAtRest (suc n) w m h c =
    leave_phase-IsAtRest (start_phase_with (end_phase_fuel n w) w) w m.phase _ refl
      (λ x e k d.
        start_phase_with-IsAtRest (end_phase_fuel n w) w x
          (λ y f c'. end_phase_fuel-IsAtRest n w y (omega (arith, k, ap phase_num f)) c') d)
      (ground arith) refl refl

-- `end_phase` may be called in any state that is sound, has no application with a handler, and, if
-- the session runs, has a reason to end. Whatever the number of phases that it goes through, it
-- settles in a state of rest: a phase up to DESKTOP waits for an application with the
-- timer set, END_SESSION has the timer set, no session ends without a reason, and no assertion fails.
pub end_phase-IsAtRest : (w : World) (m : Manager) → CanEnd m → IsAtRest (end_phase w m)
unfolding end_phase
end_phase-IsAtRest w m c = end_phase_fuel-IsAtRest 10 w m (omega arith) c

pub start_phase-IsAtRest : (w : World) (m : Manager) → CanStart m → IsAtRest (start_phase w m)
unfolding start_phase
start_phase-IsAtRest w m c =
    start_phase_with-IsAtRest (end_phase w) w m (λ x e d. end_phase-IsAtRest w x d) c
