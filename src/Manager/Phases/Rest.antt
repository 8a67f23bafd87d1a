-- ===== src/Manager/Phases/Rest.antt =====
-- The states in which the manager waits for the next event.
use mate_session_manager.Base.{
  ℕ, ◌<◌, ◌≡◌, ◌≢◌, ◌⊎◌, Bool, true, false, Option, none, some, List, [], ◌∷◌, is_nil, contains,
}
use mate_session_manager.Manager.Types.{
  Manager, application, running, query_end_session, end_session, phase_num, is_waiting_phase,
  is_ending, no_logout, LogoutAction, to_logout, to_shutdown, to_reboot, has_failed,
}

-- Whether the end of an inhibit dialog with this action ends the phase.
abbrev pub ends_session : Option LogoutAction → Bool
ends_session (some to_logout) = true
ends_session (some to_shutdown) = true
ends_session (some to_reboot) = true
ends_session _ = false

-- Every application with a handler is one that is waited for.
abbrev pub AllPending : List ℕ → List ℕ → Type 0
AllPending [] pending = Unit {0}
AllPending (h ∷ hs) pending = (contains h pending ≡ true) × AllPending hs pending

-- The facts that hold throughout: no assertion failed, a session that ends has a reason to,
-- and nothing that may end it is open before it runs.
pub record IsSound (m : Manager) : Type 0 where
  pub no_failure : has_failed m.effects ≡ false
  pub query_timer : m.query_timeout ≡ true → m.phase ≡ query_end_session
  pub ends_for_a_reason : is_ending m.phase ≡ true → m.logout_type ≢ no_logout
  pub dialog_is_late : ends_session m.inhibit_dialog ≡ true → is_ending m.phase ≡ true
  pub early_dialogs :
      phase_num m.phase < 6
      → (m.logout_dialog ≡ false) × (m.privileges ≡ []) × (m.inhibit_dialog ≡ none)

-- At rest, in addition: a phase of the start waits for some application, with the timer set; the
-- end of the session waits with the timer set; and no other phase has a timer or waits for
-- applications.
pub record IsAtRest (m : Manager) : Type 0 where
  pub sound : IsSound m
  pub not_application : m.phase ≢ application
  pub waits :
      is_waiting_phase m.phase ≡ true → (m.phase_timeout ≡ true) × (is_nil m.pending_apps ≡ false)
  pub ends : m.phase ≡ end_session → m.phase_timeout ≡ true
  pub timer : m.phase_timeout ≡ true → (is_waiting_phase m.phase ≡ true) ⊎ (m.phase ≡ end_session)
  pub pending : is_waiting_phase m.phase ≡ false → m.pending_apps ≡ []
  pub heard : AllPending m.handlers m.pending_apps

-- What a caller of `end_phase` must see to.
pub record CanEnd (m : Manager) : Type 0 where
  pub sound : IsSound m
  pub heard : m.handlers ≡ []
  pub reason : m.phase ≡ running → m.logout_type ≢ no_logout

-- What a caller of `start_phase` must see to; it stops the timers itself.
pub record CanStart (m : Manager) : Type 0 where
  pub no_failure : has_failed m.effects ≡ false
  pub ends_for_a_reason : is_ending m.phase ≡ true → m.logout_type ≢ no_logout
  pub dialog_is_late : ends_session m.inhibit_dialog ≡ true → is_ending m.phase ≡ true
  pub early_dialogs :
      phase_num m.phase < 6
      → (m.logout_dialog ≡ false) × (m.privileges ≡ []) × (m.inhibit_dialog ≡ none)
  pub heard : m.handlers ≡ []
