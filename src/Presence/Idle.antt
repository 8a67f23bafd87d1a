-- ===== src/Presence/Idle.antt =====
-- When the session is idle, and when the idle monitor is asked to watch for it
-- (mate-session/gsm-presence.c).
use mate_session_manager.Base.{
  ℕ, ◌<◌, ◌≡◌, ◌≢◌, ◌⊎◌, Bool, true, false, not, ◌&&◌, Option, ltb, arith, String,
}
use mate_session_manager.Presence.{
  Presence, available, idle, next_serial, set_status, set_session_idle, reset_idle_watch,
  on_idle_timeout, on_screensaver_active_changed, on_screensaver_proxy_destroy,
  on_bus_name_owner_changed, set_idle_enabled, set_idle_timeout, new, remove_watch, add_watch,
}

-- There is a watch exactly when there is a monitor to ask, the screensaver is off, idleness is
-- of interest and the delay is not 0; and the status to go back to is not IDLE.
pub record IsWatching (p : Presence) : Type 0 where
  pub watched :
      ltb 0 p.idle_watch_id
      ≡ (p.has_idle_monitor && not p.screensaver_active && p.idle_enabled && ltb 0 p.idle_timeout)
  pub serial_pos : 0 < p.next_watch_id
  pub serial_small : p.next_watch_id < 2147483648
  pub saved_awake : p.saved_status ≢ idle

next_serial_bounds : (n : ℕ) → n < 2147483648 → (0 < next_serial n) × (next_serial n < 2147483648)
unfolding next_serial
next_serial_bounds n h = ground arith

-- A presence that has just been made is AVAILABLE and keeps the rules for the idle watch.
pub new-IsWatching : (made : Bool) → IsWatching (new made) × ((new made).status ≡ available)
unfolding new
new-IsWatching true = ground arith
new-IsWatching false = ground arith

reset_idle_watch-IsWatching :
    (p : Presence)
    → 0 < p.next_watch_id
    → p.next_watch_id < 2147483648
    → p.saved_status ≢ idle
    → (p.has_idle_monitor ≡ true) ⊎ (p.idle_watch_id ≡ 0)
    → IsWatching (reset_idle_watch p)
unfolding reset_idle_watch
reset_idle_watch-IsWatching p a b c d = ground (arith, next_serial_bounds p.next_watch_id)

-- The calls of other parts of the program on the presence.
pub data Request : Type 0 where
  status_set : ℕ → Request
  idle_alarm : Bool → Request
  screensaver_active : Bool → Request
  screensaver_gone : Request
  name_owner_changed : String → Option String → String → String → Bool → Request
  idle_enabled_set : Bool → Request
  idle_timeout_set : ℕ → Request

unfoldable pub handle : Request → Presence → Presence
handle (status_set status) p = (set_status status p).0
handle (idle_alarm condition) p = (on_idle_timeout condition p).0
handle (screensaver_active b) p = (on_screensaver_active_changed b p).0
handle screensaver_gone p = (on_screensaver_proxy_destroy p).0
handle (name_owner_changed gs service old_name new_name made) p =
    on_bus_name_owner_changed gs service old_name new_name made p
handle (idle_enabled_set b) p = set_idle_enabled b p
handle (idle_timeout_set n) p = set_idle_timeout n p

-- Every call keeps the rules: the idle watch is set exactly when it is wanted, serial numbers stay
-- in 1 .. 2^31 - 1, and the saved status is not IDLE.
pub handle-IsWatching : (r : Request) (p : Presence) → IsWatching p → IsWatching (handle r p)
unfolding handle set_status on_idle_timeout on_screensaver_active_changed
    on_screensaver_proxy_destroy on_bus_name_owner_changed set_idle_enabled set_idle_timeout
handle-IsWatching (status_set status) p w = ground arith
handle-IsWatching (idle_alarm true) p w = ground arith
handle-IsWatching (idle_alarm false) p w = ground arith
handle-IsWatching (screensaver_active true) p w = ground (arith, next_serial_bounds p.next_watch_id)
handle-IsWatching (screensaver_active false) p w =
    ground (arith, next_serial_bounds p.next_watch_id)
handle-IsWatching screensaver_gone p w = ground (arith, next_serial_bounds p.next_watch_id)
handle-IsWatching (name_owner_changed gs service old_name new_name made) p w = ground arith
handle-IsWatching (idle_enabled_set true) p w = ground (arith, next_serial_bounds p.next_watch_id)
handle-IsWatching (idle_enabled_set false) p w = ground (arith, next_serial_bounds p.next_watch_id)
handle-IsWatching (idle_timeout_set n) p w = ground (arith, next_serial_bounds p.next_watch_id)

-- A session that goes idle and comes back has the status from before, and both changes are
-- announced; to be told the same twice changes and announces nothing.
pub set_session_idle_back :
    (p : Presence)
    → p.status ≢ idle
    → let (q, went) = set_session_idle true p in
      let (r, came) = set_session_idle false q in
      (q.status ≡ idle)
      × (set_session_idle true q ≡ (q, false))
      × (r ≡ record p { saved_status = available })
      × (set_session_idle false r ≡ (r, false))
      × (went ≡ true)
      × (came ≡ true)
unfolding set_session_idle
set_session_idle_back p h = ground arith

pub set_idle_enabled_lem : (b : Bool) (p : Presence) → (set_idle_enabled b p).idle_enabled ≡ b
unfolding set_idle_enabled reset_idle_watch remove_watch add_watch
set_idle_enabled_lem true p = ground arith
set_idle_enabled_lem false p = ground arith
