-- ===== src/Manager/Dialogs/Rest.antt =====
-- Answers to dialogs, cancellation and the removal of inhibitors lead from rest to rest.
use mate_session_manager.Base.{
  ℕ, ◌≡◌, ◌≢◌, refl, Bool, true, false, none, some, List, [], ◌∷◌, arith, Bool-cases, inl, inr,
  is_nil, ◌==◌, nat_eq, Option-cases, if◌then◌else◌,
}
use mate_session_manager.Store
use mate_session_manager.Store.{Signal, added, removed, Store}
use mate_session_manager.Client.{Client}
use mate_session_manager.Inhibitor.{Inhibitor, is_jit}
use mate_session_manager.Manager.Queries.{update_idle}
use mate_session_manager.Manager.Phases.Rest.{IsAtRest, CanEnd, CanStart, ends_session}
use mate_session_manager.Manager.Phases.Settle.{
  AllPending-nil, end_phase-IsAtRest, start_phase-IsAtRest,
}
use mate_session_manager.Manager.Types.{
  Manager, World, running, is_ending, is_waiting_phase, no_logout, LogoutAction, to_logout,
  to_switch_user, to_shutdown, to_reboot, to_hibernate, to_sleep, InhibitResponse, cancel, nothing,
  delete_event, accept, has_failed, client_cancel, inhibitor_added, inhibitor_removed,
}
use mate_session_manager.Manager.Dialogs.{
  manager_switch_user, manager_attempt_hibernate, manager_attempt_suspend, do_inhibit_dialog_action,
  hear, cancel_clients, drop_jit_inhibitors, cancel_end_session, answer, inhibit_dialog_response,
  remove_inhibitors, remove_inhibitor,
}

-- The state that decides on rest is the same, but for the dialog.
pub record KeepsControl (m n : Manager) : Type 0 where
  pub phase : n.phase ≡ m.phase
  pub phase_timeout : n.phase_timeout ≡ m.phase_timeout
  pub pending_apps : n.pending_apps ≡ m.pending_apps
  pub handlers : n.handlers ≡ m.handlers
  pub query_timeout : n.query_timeout ≡ m.query_timeout
  pub query_clients : n.query_clients ≡ m.query_clients
  pub clients : n.clients ≡ m.clients
  pub logout_mode : n.logout_mode ≡ m.logout_mode
  pub logout_type : n.logout_type ≡ m.logout_type
  pub logout_dialog : n.logout_dialog ≡ m.logout_dialog
  pub privileges : n.privileges ≡ m.privileges
  pub failed : has_failed n.effects ≡ has_failed m.effects

pub KeepsControl-trans : {a b c : Manager} → KeepsControl a b → KeepsControl b c → KeepsControl a c
KeepsControl-trans f g = ground arith

pub KeepsControl-IsAtRest :
    {m n : Manager}
    → KeepsControl m n
    → n.inhibit_dialog ≡ m.inhibit_dialog
    → IsAtRest m
    → IsAtRest n
KeepsControl-IsAtRest k e r = ground arith

pub hear-KeepsControl :
    (l : List (Signal ℕ)) (m : Manager)
    → KeepsControl m (hear l m) × ((hear l m).inhibit_dialog ≡ m.inhibit_dialog)
unfolding hear update_idle
hear-KeepsControl [] m = ground arith
hear-KeepsControl (added id ∷ r) m = ground (
  arith,
  hear-KeepsControl r (update_idle (record m { effects = inhibitor_added id ∷ m.effects })),
)
hear-KeepsControl (removed id ∷ r) m = ground (
  arith,
  hear-KeepsControl r (update_idle (record m { effects = inhibitor_removed id ∷ m.effects })),
)

cancel_clients-KeepsControl :
    (l : List (ℕ × Client)) (m : Manager)
    → KeepsControl m (cancel_clients l m) × ((cancel_clients l m).inhibit_dialog ≡ m.inhibit_dialog)
unfolding cancel_clients
cancel_clients-KeepsControl [] m = ground arith
cancel_clients-KeepsControl ((_, c) ∷ r) m =
    ground
      (arith, cancel_clients-KeepsControl r (record m { effects = client_cancel c.id ∷ m.effects }))

drop_jit_inhibitors-KeepsControl :
    (m : Manager)
    → KeepsControl m (drop_jit_inhibitors m) × ((drop_jit_inhibitors m).inhibit_dialog ≡ none)
unfolding drop_jit_inhibitors
drop_jit_inhibitors-KeepsControl m =
    let (store, signals) = Store.foreach_remove is_jit m.inhibitors in
    ground
      (arith, hear-KeepsControl signals (record m { inhibitors = store; inhibit_dialog = none }))

-- Outside the phases of the start nobody listens to an application.
pub IsAtRest-CanEnd :
    (m : Manager)
    → IsAtRest m
    → is_waiting_phase m.phase ≡ false
    → (m.phase ≡ running → m.logout_type ≢ no_logout)
    → CanEnd m
IsAtRest-CanEnd m r e h = ground (arith, AllPending-nil m.handlers m.pending_apps)

cancel_clients_from :
    (m n : Manager)
    → KeepsControl m n
    → n.inhibit_dialog ≡ none
    → IsAtRest m
    → is_ending m.phase ≡ true
    → CanStart (record n { phase = running; logout_type = no_logout })
cancel_clients_from m n k d r e = ground (arith, AllPending-nil m.handlers m.pending_apps)

pub cancel_end_session-IsAtRest :
    (w : World) (m : Manager) → IsAtRest m → IsAtRest (cancel_end_session w m)
unfolding cancel_end_session
cancel_end_session-IsAtRest w m r =
    let (k, d) = drop_jit_inhibitors-KeepsControl m in
    let (k', d') = cancel_clients-KeepsControl m.clients.objects (drop_jit_inhibitors m) in
    let n : Manager = cancel_clients m.clients.objects (drop_jit_inhibitors m) in
    elim (Bool-cases (is_ending m.phase)) [
      | inl e ↦ rw e (
          start_phase-IsAtRest w _ (
            ground (
              arith,
              cancel_clients_from m n (KeepsControl-trans k k') (ground (arith, d, d')) r e,
            )))
      | inr e ↦ rw e r
    ]

-- The dialog has just gone; if it was about the end of the session, the session was ending.
do_inhibit_dialog_action-IsAtRest :
    (w : World) (a : LogoutAction) (m : Manager)
    → (ends_session (some a) ≡ true → is_ending m.phase ≡ true)
    → IsAtRest m
    → IsAtRest (do_inhibit_dialog_action w a m)
unfolding do_inhibit_dialog_action manager_switch_user manager_attempt_hibernate
    manager_attempt_suspend
do_inhibit_dialog_action-IsAtRest w to_switch_user m h r = ground arith
do_inhibit_dialog_action-IsAtRest w to_hibernate m h r = ground arith
do_inhibit_dialog_action-IsAtRest w to_sleep m h r = ground arith
do_inhibit_dialog_action-IsAtRest w to_shutdown m h r =
    end_phase-IsAtRest w _
      (IsAtRest-CanEnd _ (ground arith) (ground (arith, h refl)) (ground (arith, h refl)))
do_inhibit_dialog_action-IsAtRest w to_reboot m h r =
    end_phase-IsAtRest w _
      (IsAtRest-CanEnd _ (ground arith) (ground (arith, h refl)) (ground (arith, h refl)))
do_inhibit_dialog_action-IsAtRest w to_logout m h r =
    end_phase-IsAtRest w _
      (IsAtRest-CanEnd _ (ground arith) (ground (arith, h refl)) (ground (arith, h refl)))

answer-IsAtRest :
    (w : World) (i : InhibitResponse) (a : LogoutAction) (m : Manager)
    → (ends_session (some a) ≡ true → is_ending m.phase ≡ true)
    → IsAtRest m
    → IsAtRest (answer w i a m)
unfolding answer
answer-IsAtRest w accept a m h r = do_inhibit_dialog_action-IsAtRest w a m h r
answer-IsAtRest w cancel to_logout m h r = cancel_end_session-IsAtRest w m r
answer-IsAtRest w cancel to_shutdown m h r = cancel_end_session-IsAtRest w m r
answer-IsAtRest w cancel to_reboot m h r = cancel_end_session-IsAtRest w m r
answer-IsAtRest w cancel _ m h r = r
answer-IsAtRest w nothing to_logout m h r = cancel_end_session-IsAtRest w m r
answer-IsAtRest w nothing to_shutdown m h r = cancel_end_session-IsAtRest w m r
answer-IsAtRest w nothing to_reboot m h r = cancel_end_session-IsAtRest w m r
answer-IsAtRest w nothing _ m h r = r
answer-IsAtRest w delete_event to_logout m h r = cancel_end_session-IsAtRest w m r
answer-IsAtRest w delete_event to_shutdown m h r = cancel_end_session-IsAtRest w m r
answer-IsAtRest w delete_event to_reboot m h r = cancel_end_session-IsAtRest w m r
answer-IsAtRest w delete_event _ m h r = r

pub inhibit_dialog_response-IsAtRest :
    (w : World) (i : InhibitResponse) (m : Manager)
    → IsAtRest m
    → IsAtRest (inhibit_dialog_response w i m)
unfolding inhibit_dialog_response
inhibit_dialog_response-IsAtRest w i m r = elim (Option-cases m.inhibit_dialog) [
  | inl e ↦ rw (e, inhibit_dialog_response) r
  | inr (a, e) ↦
      rw (e, inhibit_dialog_response) (answer-IsAtRest w i a _ (ground arith) (ground arith))
]

heard_removal-IsAtRest :
    (w : World) (signals : List (Signal ℕ)) (store : Store ℕ Inhibitor) (m : Manager)
    → IsAtRest m
    → IsAtRest (
        let n = hear signals (record m { inhibitors = store }) in
        if is_nil signals
        then n
        else if Store.size store == 0
        then inhibit_dialog_response w accept n
        else n)
heard_removal-IsAtRest w signals store m r =
    let n : Manager = hear signals (record m { inhibitors = store }) in
    let (k, d) = hear-KeepsControl signals (record m { inhibitors = store }) in
    let q : IsAtRest n =
      KeepsControl-IsAtRest {m = m} {n = n} (ground (arith, k)) (ground (arith, d)) r in
    ground (arith, q, inhibit_dialog_response-IsAtRest w accept n q)

pub remove_inhibitors-IsAtRest :
    (w : World) (p : ℕ → Inhibitor → Bool) (m : Manager)
    → IsAtRest m
    → IsAtRest (remove_inhibitors w p m)
unfolding remove_inhibitors
remove_inhibitors-IsAtRest w p m r = heard_removal-IsAtRest w _ _ m r

pub remove_inhibitor-IsAtRest :
    (w : World) (id : ℕ) (m : Manager) → IsAtRest m → IsAtRest (remove_inhibitor w id m)
unfolding remove_inhibitor
remove_inhibitor-IsAtRest w id m r = heard_removal-IsAtRest w _ _ m r
