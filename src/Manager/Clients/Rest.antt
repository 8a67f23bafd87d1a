-- ===== src/Manager/Clients/Rest.antt =====
-- Clients that come and go lead the manager from rest to rest.
use mate_session_manager.Base.{
  ℕ, ◌≡◌, refl, Bool, true, false, Option, none, some, List, [], ◌∷◌, String, arith, Bool-cases,
  inl, inr, is_nil, ◌&&◌, ◌==◌, not, slist_remove, remove_all, contains, nat_eq, strcmp_eq,
  if◌then◌else◌,
}
use mate_session_manager.Store
use mate_session_manager.Store.{Signal, added, removed, Store}
use mate_session_manager.Client.{Client, finished, set_status}
use mate_session_manager.Inhibitor.{has_client_id, has_bus_name}
use mate_session_manager.Manager.Phases.{
  end_phase, app_registered, app_signal, on_phase_timeout, disconnect_all,
}
use mate_session_manager.Manager.Phases.Rest.{AllPending, IsAtRest}
use mate_session_manager.Manager.Phases.Settle.{AllPending-nil, end_phase-IsAtRest}
use mate_session_manager.Manager.Dialogs.{remove_inhibitors}
use mate_session_manager.Manager.Dialogs.Rest.{IsAtRest-CanEnd, remove_inhibitors-IsAtRest}
use mate_session_manager.Manager.EndSession.Rest.{handle_client_end_session_response-IsAtRest}
use mate_session_manager.Manager.Types.{
  Manager, World, App, is_ending, is_waiting_phase, emit, app_restart,
}
use mate_session_manager.Manager.Clients.{
  update_client, find_app, must_restart, disconnect_client, hear_clients, end_if_alone, exit_answer,
  on_client_disconnected, owned_by, disconnect_each, remove_clients_for_connection, bus_filter,
  bus_name_owner_changed,
}

contains-remove_all :
    (id h : ℕ) (p : List ℕ)
    → (h == id) ≡ false
    → contains h p ≡ true
    → contains h (slist_remove id p) ≡ true
unfolding slist_remove
contains-remove_all id h [] e c = c
contains-remove_all id h (x ∷ xs) e c = ground (arith, contains-remove_all id h xs e)

AllPending-remove :
    (id : ℕ) (hs p : List ℕ) → AllPending hs p → AllPending (remove_all id hs) (slist_remove id p)
unfolding remove_all
AllPending-remove id [] p a = tt
AllPending-remove id (h ∷ hs) p a =
    ground (arith, AllPending-remove id hs p a.1, contains-remove_all id h p)

-- An application with a handler is pending, so the phase is one of the start.
heard_is_waiting :
    (id : ℕ) (hs p : List ℕ) → AllPending hs p → contains id hs ≡ true → is_nil p ≡ false
heard_is_waiting id [] p a c = cc
heard_is_waiting id (h ∷ hs) [] a c = cc
heard_is_waiting id (h ∷ hs) (x ∷ p) a c = refl

heard_phase :
    (id : ℕ) (m : Manager)
    → IsAtRest m
    → contains id m.handlers ≡ true
    → is_waiting_phase m.phase ≡ true
heard_phase id m r c = elim (Bool-cases (is_waiting_phase m.phase)) [
  | inl e ↦ e
  | inr e ↦ ground (arith, heard_is_waiting id m.handlers m.pending_apps r.heard c, r.pending e)
]

registered_app-IsAtRest :
    (w : World) (m : Manager) (pending handlers : List ℕ)
    → is_waiting_phase m.phase ≡ true
    → IsAtRest m
    → AllPending handlers pending
    → IsAtRest (
        let n = record m { pending_apps = pending; handlers = handlers } in
        if is_nil n.pending_apps then end_phase w (record n { phase_timeout = false }) else n)
registered_app-IsAtRest w m pending handlers e r a = elim (Bool-cases (is_nil pending)) [
  | inl c ↦ rw c (
      end_phase-IsAtRest w
        (record m { pending_apps = pending; handlers = handlers; phase_timeout = false })
        (ground (arith, AllPending-nil handlers pending c a)))
  | inr c ↦ rw c (ground arith)
]

-- An application that registers or exits is no longer waited for; the last one ends the phase.
pub app_signal-IsAtRest :
    (w : World) (id : ℕ) (m : Manager) → IsAtRest m → IsAtRest (app_signal w id m)
unfolding app_signal app_registered
app_signal-IsAtRest w id m r = elim (Bool-cases (contains id m.handlers)) [
  | inr c ↦ rw c r
  | inl c ↦ rw c (
      registered_app-IsAtRest w m (slist_remove id m.pending_apps) (remove_all id m.handlers)
        (heard_phase id m r c) r (AllPending-remove id m.handlers m.pending_apps r.heard))
]

remove_all-AllPending :
    (x : ℕ) (hs p : List ℕ) → AllPending hs (x ∷ p) → AllPending (remove_all x hs) p
unfolding remove_all
remove_all-AllPending x [] p a = tt
remove_all-AllPending x (h ∷ hs) p a = ground (arith, remove_all-AllPending x hs p a.1)

disconnect_all-nil : (p hs : List ℕ) → AllPending hs p → disconnect_all p hs ≡ []
unfolding disconnect_all
disconnect_all-nil [] hs a = AllPending-nil hs [] refl a
disconnect_all-nil (x ∷ p) hs a =
    disconnect_all-nil p (remove_all x hs) (remove_all-AllPending x hs p a)

-- The timer of a phase fires only while it is set.
pub on_phase_timeout-IsAtRest :
    (w : World) (m : Manager)
    → m.phase_timeout ≡ true
    → IsAtRest m
    → IsAtRest (on_phase_timeout w m)
unfolding on_phase_timeout
on_phase_timeout-IsAtRest w m t r = end_phase-IsAtRest w _ (
    ground (
      arith,
      disconnect_all-nil m.pending_apps m.handlers r.heard,
      AllPending-nil m.handlers m.pending_apps,
    ))

pub update_client-IsAtRest :
    (id : ℕ) (f : Client → Client) (m : Manager) → IsAtRest m → IsAtRest (update_client id f m)
unfolding update_client
update_client-IsAtRest id f m r = ground arith

pub hear_clients-IsAtRest :
    (l : List (Signal ℕ)) (m : Manager) → IsAtRest m → IsAtRest (hear_clients l m)
unfolding hear_clients
hear_clients-IsAtRest [] m r = r
hear_clients-IsAtRest (added id ∷ l) m r = hear_clients-IsAtRest l _ (ground arith)
hear_clients-IsAtRest (removed id ∷ l) m r = hear_clients-IsAtRest l _ (ground arith)

end_if_alone-IsAtRest : (w : World) (m : Manager) → IsAtRest m → IsAtRest (end_if_alone w m)
unfolding end_if_alone
end_if_alone-IsAtRest w m r = elim (Bool-cases (is_ending m.phase)) [
  | inr e ↦ rw e r
  | inl e ↦
      ground (arith, end_phase-IsAtRest w m (IsAtRest-CanEnd m r (ground arith) (ground arith)))
]

maybe_restarted-IsAtRest :
    (app : Option App) (c : Client) (held : Bool) (m : Manager)
    → IsAtRest m
    → IsAtRest (elim app [
      | none ↦ m
      | some a ↦ if must_restart m c a held then emit (app_restart a.id) m else m
    ])
maybe_restarted-IsAtRest none c held m r = r
maybe_restarted-IsAtRest (some a) c held m r = elim (Bool-cases (must_restart m c a held)) [
  | inl e ↦ rw e (ground arith)
  | inr e ↦ rw e r
]

pub disconnect_client-IsAtRest :
    (w : World) (c : Client) (m : Manager) → IsAtRest m → IsAtRest (disconnect_client w c m)
unfolding disconnect_client
disconnect_client-IsAtRest w c m r =
    let m1 : Manager = update_client c.id (set_status finished) m in
    let m2 : Manager = record m1 { condition_clients = slist_remove c.id m.condition_clients } in
    let q1 : IsAtRest m1 = update_client-IsAtRest c.id (set_status finished) m r in
    let m3 : Manager = remove_inhibitors w (has_client_id c.id) m2 in
    let q3 : IsAtRest m3 = remove_inhibitors-IsAtRest w (has_client_id c.id) m2 (ground arith) in
    maybe_restarted-IsAtRest (find_app c.startup_id c.app_id m3) c _ _
      (ground (arith, q3, handle_client_end_session_response-IsAtRest w c exit_answer m3 q3))

pub on_client_disconnected-IsAtRest :
    (w : World) (c : Client) (m : Manager) → IsAtRest m → IsAtRest (on_client_disconnected w c m)
unfolding on_client_disconnected
on_client_disconnected-IsAtRest w c m r =
    let q : IsAtRest (disconnect_client w c m) = disconnect_client-IsAtRest w c m r in
    let n : Manager = disconnect_client w c m in
    let (store, done, signals) = Store.remove c.id n.clients in
    end_if_alone-IsAtRest w _
      (hear_clients-IsAtRest signals (record n { clients = store }) (ground (arith, q)))

disconnect_each-IsAtRest :
    (w : World) (service : Option String) (l : List (ℕ × Client)) (gone : List ℕ) (m : Manager)
    → IsAtRest m
    → IsAtRest (disconnect_each w service l gone m).0
unfolding disconnect_each
disconnect_each-IsAtRest w service [] gone m r = r
disconnect_each-IsAtRest w service ((k, c) ∷ l) gone m r =
    let n : Manager = disconnect_client w c m in
    let q : IsAtRest n = disconnect_client-IsAtRest w c m r in
    let left : Manager = record n { clients = (Store.remove k n.clients).0 } in
    elim (Bool-cases (owned_by service c)) [
      | inl e ↦ rw e (disconnect_each-IsAtRest w service l (k ∷ gone) left (ground (arith, q)))
      | inr e ↦ rw e (disconnect_each-IsAtRest w service l gone m r)
    ]

remove_clients_for_connection-IsAtRest :
    (w : World) (service : Option String) (m : Manager)
    → IsAtRest m
    → IsAtRest (remove_clients_for_connection w service m)
unfolding remove_clients_for_connection
remove_clients_for_connection-IsAtRest w service m r = end_if_alone-IsAtRest w _ (
    hear_clients-IsAtRest (Store.emit_removed (disconnect_each w service m.clients.objects [] m).1)
      _ (disconnect_each-IsAtRest w service m.clients.objects [] m r))

pub bus_filter-IsAtRest : (w : World) (m : Manager) → IsAtRest m → IsAtRest (bus_filter w m)
unfolding bus_filter
bus_filter-IsAtRest w m r =
    remove_clients_for_connection-IsAtRest w none (record m { dbus_disconnected = true })
      (ground arith)

pub bus_name_owner_changed-IsAtRest :
    (w : World) (old_name new_name : String) (m : Manager)
    → IsAtRest m
    → IsAtRest (bus_name_owner_changed w old_name new_name m)
unfolding bus_name_owner_changed
bus_name_owner_changed-IsAtRest w old_name new_name m r =
    let n : Manager = remove_inhibitors w (has_bus_name (some old_name)) m in
    let q : IsAtRest n = remove_inhibitors-IsAtRest w (has_bus_name (some old_name)) m r in
    elim (Bool-cases (strcmp_eq new_name "" && not (strcmp_eq old_name ""))) [
      | inl e ↦ rw e (remove_clients_for_connection-IsAtRest w (some old_name) n q)
      | inr e ↦ rw e r
    ]
