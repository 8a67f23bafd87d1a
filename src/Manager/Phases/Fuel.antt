-- ===== src/Manager/Phases/Fuel.antt =====
-- The calls between `end_phase` and `start_phase` come to an end: each goes one phase on, and there
-- are ten.
use mate_session_manager.Base.{
  false, ℕ, zero, suc, ◌+◌, ◌≤◌, ◌<◌, ◌≡◌, refl, ap, ◌∙◌, arith, inl, inr, Bool-cases,
}
use mate_session_manager.Manager.Types.{
  Manager, World, Phase, startup, running, query_end_session, end_session, exit, phase_num,
  next_phase,
}
use mate_session_manager.Manager.Phases.{
  start_apps, do_phase_startup, do_phase_end_session, do_phase_exit, maybe_restart_user_bus,
  maybe_save_session, leave_phase, enter_phase, reset_phase, end_phase_with, start_phase_with,
  end_phase_fuel, end_phase, start_phase,
}
use mate_session_manager.Manager.Phases.Frame.{start_apps-IsFramed, stop_clients-IsFramed}

-- Two functions that agree in the phase of `m`.
abbrev AgreeAt : (Manager → Manager) → (Manager → Manager) → Manager → Type 0
AgreeAt k l m = (x : Manager) → x.phase ≡ m.phase → k x ≡ l x

do_phase_startup-cong :
    (k l : Manager → Manager) (w : World) (m : Manager)
    → AgreeAt k l m
    → do_phase_startup k w m ≡ do_phase_startup l w m
unfolding do_phase_startup
do_phase_startup-cong k l w m h =
    let e : k (start_apps w m.apps.objects m) ≡ l (start_apps w m.apps.objects m) =
      h _ (start_apps-IsFramed w m.apps.objects m).phase in
    rw e refl

do_phase_end_session-cong :
    (k l : Manager → Manager) (w : World) (m : Manager)
    → AgreeAt k l m
    → do_phase_end_session k w m ≡ do_phase_end_session l w m
unfolding do_phase_end_session
do_phase_end_session-cong k l w m h = rw (h (record m { phase_timeout = false }) refl) refl

do_phase_exit-cong :
    (k l : Manager → Manager) (w : World) (m : Manager)
    → AgreeAt k l m
    → do_phase_exit k w m ≡ do_phase_exit l w m
unfolding do_phase_exit maybe_restart_user_bus
do_phase_exit-cong k l w m h = h _ (ground (arith, stop_clients-IsFramed m.clients.objects m))

enter_phase-cong :
    (k l : Manager → Manager) (w : World) (p : Phase) (m : Manager)
    → AgreeAt k l m
    → enter_phase k w p m ≡ enter_phase l w p m
unfolding enter_phase
enter_phase-cong k l w running m h = refl
enter_phase-cong k l w query_end_session m h = refl
enter_phase-cong k l w end_session m h = do_phase_end_session-cong k l w m h
enter_phase-cong k l w exit m h = do_phase_exit-cong k l w m h
enter_phase-cong k l w _ m h = do_phase_startup-cong k l w m h

start_phase_with-cong :
    (k l : Manager → Manager) (w : World) (m : Manager)
    → AgreeAt k l m
    → start_phase_with k w m ≡ start_phase_with l w m
unfolding start_phase_with reset_phase
start_phase_with-cong k l w m h = enter_phase-cong k l w m.phase _ h

maybe_save_session-phase : (w : World) (m : Manager) → (maybe_save_session w m).phase ≡ m.phase
unfolding maybe_save_session
maybe_save_session-phase w m = ground arith

pub phase_num-le : (p : Phase) → phase_num p ≤ 9
phase_num-le startup = omega arith
phase_num-le _ = omega arith

phase_num-next_phase : (p : Phase) → phase_num p < 9 → phase_num (next_phase p) ≡ suc (phase_num p)
unfolding next_phase
phase_num-next_phase startup h = refl
phase_num-next_phase exit h = absurd (omega arith)
phase_num-next_phase _ h = refl

-- Two functions that agree in the phase after `p`.
abbrev AgreeAfter : (Manager → Manager) → (Manager → Manager) → Phase → Type 0
AgreeAfter s t p =
    (x : Manager) → x.phase ≡ next_phase p → phase_num x.phase ≡ suc (phase_num p) → s x ≡ t x

leave_phase-cong :
    (s t : Manager → Manager) (w : World) (p : Phase) (m : Manager)
    → m.phase ≡ p
    → AgreeAfter s t p
    → leave_phase s w p m ≡ leave_phase t w p m
unfolding leave_phase next_phase
leave_phase-cong s t w running m e h = elim (Bool-cases w.log_out_disabled) [
  | inl b ↦ rw b refl
  | inr b ↦ rw b (h _ (ap next_phase e) (ap (λ q. phase_num (next_phase q)) e))
]
leave_phase-cong s t w end_session m e h = elim (Bool-cases w.auto_save) [
  | inl b ↦ rw b (
      h _ (ap next_phase (maybe_save_session-phase w m ∙ e))
        (ap (λ q. phase_num (next_phase q)) (maybe_save_session-phase w m ∙ e)))
  | inr b ↦ rw b (h _ (ap next_phase e) (ap (λ q. phase_num (next_phase q)) e))
]
leave_phase-cong s t w exit m e h = refl
leave_phase-cong s t w _ m e h = h _ (ap next_phase e) (ap (λ q. phase_num (next_phase q)) e)

end_phase_fuel-suc :
    (n : ℕ) (w : World) (m : Manager)
    → 9 < n + phase_num m.phase
    → end_phase_fuel n w m ≡ end_phase_fuel (suc n) w m
unfolding end_phase_fuel end_phase_with reset_phase
end_phase_fuel-suc zero w m h = absurd (omega (arith, phase_num-le m.phase))
end_phase_fuel-suc (suc n) w m h =
    leave_phase-cong (start_phase_with (end_phase_fuel n w) w)
      (start_phase_with (end_phase_fuel (suc n) w) w) w m.phase _ refl
      λ x e k.
        start_phase_with-cong (end_phase_fuel n w) (end_phase_fuel (suc n) w) w x
          λ y f. end_phase_fuel-suc n w y (omega (arith, k, ap phase_num f))

-- The recursion of the source comes to an end: with the fuel given, `end_phase` and `start_phase`
-- satisfy the equations of their bodies over each other, in every state.
pub end_phase_unrolls :
    (w : World) (m : Manager)
    → (end_phase w m ≡ end_phase_with (start_phase w) w m)
      × (start_phase w m ≡ start_phase_with (end_phase w) w m)
unfolding end_phase start_phase
end_phase_unrolls w m = (end_phase_fuel-suc 10 w m (omega arith) ∙ refl, refl)
