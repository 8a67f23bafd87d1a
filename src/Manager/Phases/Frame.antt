-- ===== src/Manager/Phases/Frame.antt =====
-- What the loops of a phase leave alone: they change only the lists of those that are waited for
-- and what was done.
use mate_session_manager.Base.{ℕ, ◌≡◌, List, [], ◌∷◌, arith}
use mate_session_manager.Client.{Client}
use mate_session_manager.Manager.Types.{has_failed, client_stop, Manager, World, App}
use mate_session_manager.Manager.Phases.{
  start_app, start_apps, client_end_session, end_clients, end_last_clients,
  client_query_end_session, query_all, stop_clients,
}

pub record IsFramed (m n : Manager) : Type 0 where
  pub clients : n.clients ≡ m.clients
  pub inhibitors : n.inhibitors ≡ m.inhibitors
  pub apps : n.apps ≡ m.apps
  pub presence : n.presence ≡ m.presence
  pub phase : n.phase ≡ m.phase
  pub phase_timeout : n.phase_timeout ≡ m.phase_timeout
  pub query_timeout : n.query_timeout ≡ m.query_timeout
  pub logout_mode : n.logout_mode ≡ m.logout_mode
  pub logout_type : n.logout_type ≡ m.logout_type
  pub next_query_clients : n.next_query_clients ≡ m.next_query_clients
  pub inhibit_dialog : n.inhibit_dialog ≡ m.inhibit_dialog
  pub logout_dialog : n.logout_dialog ≡ m.logout_dialog
  pub privileges : n.privileges ≡ m.privileges
  pub failed : has_failed n.effects ≡ has_failed m.effects

IsFramed-trans : {a b c : Manager} → IsFramed a b → IsFramed b c → IsFramed a c
IsFramed-trans f g = ground arith

IsFramed-refl : (m : Manager) → IsFramed m m
IsFramed-refl m = ground arith

start_app-IsFramed : (w : World) (a : App) (m : Manager) → IsFramed m (start_app w a m)
unfolding start_app
start_app-IsFramed w a m = ground arith

pub start_apps-IsFramed :
    (w : World) (l : List (ℕ × App)) (m : Manager) → IsFramed m (start_apps w l m)
unfolding start_apps
start_apps-IsFramed w [] m = IsFramed-refl m
start_apps-IsFramed w ((_, a) ∷ r) m =
    IsFramed-trans (start_app-IsFramed w a m) (start_apps-IsFramed w r (start_app w a m))

client_end_session-IsFramed :
    (w : World) (flags id : ℕ) (m : Manager) → IsFramed m (client_end_session w flags id m)
unfolding client_end_session
client_end_session-IsFramed w flags id m = ground arith

pub end_clients-IsFramed :
    (w : World) (flags : ℕ) (l : List (ℕ × Client)) (m : Manager)
    → IsFramed m (end_clients w flags l m)
unfolding end_clients
end_clients-IsFramed w flags [] m = IsFramed-refl m
end_clients-IsFramed w flags ((_, c) ∷ r) m =
    IsFramed-trans (client_end_session-IsFramed w flags c.id m)
      (end_clients-IsFramed w flags r (client_end_session w flags c.id m))

pub end_last_clients-IsFramed :
    (w : World) (flags : ℕ) (l : List ℕ) (m : Manager) → IsFramed m (end_last_clients w flags l m)
unfolding end_last_clients
end_last_clients-IsFramed w flags [] m = IsFramed-refl m
end_last_clients-IsFramed w flags (c ∷ r) m =
    IsFramed-trans (client_end_session-IsFramed w flags c m)
      (end_last_clients-IsFramed w flags r (client_end_session w flags c m))

client_query_end_session-IsFramed :
    (w : World) (flags id : ℕ) (m : Manager) → IsFramed m (client_query_end_session w flags id m)
unfolding client_query_end_session
client_query_end_session-IsFramed w flags id m = ground arith

pub query_all-IsFramed :
    (w : World) (flags : ℕ) (l : List (ℕ × Client)) (m : Manager)
    → IsFramed m (query_all w flags l m)
unfolding query_all
query_all-IsFramed w flags [] m = IsFramed-refl m
query_all-IsFramed w flags ((_, c) ∷ r) m =
    IsFramed-trans (client_query_end_session-IsFramed w flags c.id m)
      (query_all-IsFramed w flags r (client_query_end_session w flags c.id m))

pub stop_clients-IsFramed : (l : List (ℕ × Client)) (m : Manager) → IsFramed m (stop_clients l m)
unfolding stop_clients
stop_clients-IsFramed [] m = IsFramed-refl m
stop_clients-IsFramed ((_, c) ∷ r) m =
    IsFramed-trans (ground arith)
      (stop_clients-IsFramed r (record m { effects = client_stop c.id ∷ m.effects }))

-- The loops over clients also leave alone what the phases of the start wait for.
pub record KeepsApps (m n : Manager) : Type 0 where
  pub pending_apps : n.pending_apps ≡ m.pending_apps
  pub handlers : n.handlers ≡ m.handlers

pub end_clients-KeepsApps :
    (w : World) (flags : ℕ) (l : List (ℕ × Client)) (m : Manager)
    → KeepsApps m (end_clients w flags l m)
unfolding end_clients client_end_session
end_clients-KeepsApps w flags [] m = ground arith
end_clients-KeepsApps w flags ((_, c) ∷ r) m =
    ground (arith, end_clients-KeepsApps w flags r (client_end_session w flags c.id m))

pub end_last_clients-KeepsApps :
    (w : World) (flags : ℕ) (l : List ℕ) (m : Manager) → KeepsApps m (end_last_clients w flags l m)
unfolding end_last_clients client_end_session
end_last_clients-KeepsApps w flags [] m = ground arith
end_last_clients-KeepsApps w flags (c ∷ r) m =
    ground (arith, end_last_clients-KeepsApps w flags r (client_end_session w flags c m))

pub query_all-KeepsApps :
    (w : World) (flags : ℕ) (l : List (ℕ × Client)) (m : Manager)
    → KeepsApps m (query_all w flags l m)
unfolding query_all client_query_end_session
query_all-KeepsApps w flags [] m = ground arith
query_all-KeepsApps w flags ((_, c) ∷ r) m =
    ground (arith, query_all-KeepsApps w flags r (client_query_end_session w flags c.id m))

pub stop_clients-KeepsApps : (l : List (ℕ × Client)) (m : Manager) → KeepsApps m (stop_clients l m)
unfolding stop_clients
stop_clients-KeepsApps [] m = ground arith
stop_clients-KeepsApps ((_, c) ∷ r) m =
    ground (arith, stop_clients-KeepsApps r (record m { effects = client_stop c.id ∷ m.effects }))
