-- ===== src/Presence.antt =====
-- mate-session/gsm-presence.c: the user's presence. The status is AVAILABLE, INVISIBLE, BUSY or
-- IDLE; a session that goes idle keeps the status from before and takes it up again afterwards.
-- The status text and the D-Bus glue are in child modules or left out.
pub mod Idle
pub mod StatusText
use mate_session_manager.Base.{
  ℕ, ◌+◌, ◌%◌, ◌<◌, Bool, true, false, not, ◌&&◌, Option, none, some, if◌then◌else◌, ltb, ◌==◌,
  String, strcmp_eq,
}

-- `guint status`; the D-Bus method `SetStatus` lets any number in.
abbrev pub available : ℕ
available = 0

abbrev pub idle : ℕ
idle = 3

-- What the idle monitor (mate-session/gs-idle-monitor.c) answers: whether one could be made, and
-- the identifier of the next watch, a serial number that is not 0.
pub record Presence : Type 0 where
  pub status : ℕ
  pub saved_status : ℕ
  pub idle_enabled : Bool
  pub has_idle_monitor : Bool
  pub idle_watch_id : ℕ
  pub next_watch_id : ℕ
  pub idle_timeout : ℕ
  pub screensaver_active : Bool
  pub has_screensaver_proxy : Bool

-- `get_next_watch_serial` steps a 32-bit counter and leaves out what is negative as an `int`.
unfoldable pub next_serial : ℕ → ℕ
next_serial n = if ltb ((n + 1) % 4294967296) 2147483648 then (n + 1) % 4294967296 else 1

-- `gsm_presence_set_status`; the second part says whether "status-changed" is emitted.
unfoldable pub set_status : ℕ → Presence → Presence × Bool
set_status status p =
    if status == p.status then (p, false) else (record p { status = status }, true)

unfoldable pub set_session_idle : Bool → Presence → Presence × Bool
unfolding set_status
set_session_idle true p =
    if p.status == idle then (p, false) else set_status idle (record p { saved_status = p.status })
set_session_idle false p =
    if p.status == idle
    then (let (q, changed) = set_status p.saved_status p in
        (record q { saved_status = available }, changed))
    else (p, false)

remove_watch : Presence → Presence
remove_watch p = if ltb 0 p.idle_watch_id then record p { idle_watch_id = 0 } else p

add_watch : Presence → Presence
unfolding next_serial
add_watch p =
    if not p.screensaver_active && p.idle_enabled && ltb 0 p.idle_timeout
    then record p { idle_watch_id = p.next_watch_id; next_watch_id = next_serial p.next_watch_id }
    else p

unfoldable pub reset_idle_watch : Presence → Presence
unfolding remove_watch add_watch
reset_idle_watch p = if p.has_idle_monitor then add_watch (remove_watch p) else p

-- The handler of a watch; it always answers that the alarm is handled.
unfoldable pub on_idle_timeout : Bool → Presence → Presence × Bool
unfolding set_session_idle
on_idle_timeout condition p = set_session_idle condition p

unfoldable pub on_screensaver_active_changed : Bool → Presence → Presence × Bool
unfolding reset_idle_watch set_session_idle
on_screensaver_active_changed true p =
    if p.screensaver_active
    then (p, false)
    else set_session_idle true (reset_idle_watch (record p { screensaver_active = true }))
on_screensaver_active_changed false p =
    if p.screensaver_active
    then set_session_idle false (reset_idle_watch (record p { screensaver_active = false }))
    else (p, false)

-- The screensaver has left the bus.
unfoldable pub on_screensaver_proxy_destroy : Presence → Presence × Bool
unfolding reset_idle_watch set_session_idle
on_screensaver_proxy_destroy p =
    let (q, changed) =
      set_session_idle false
        (record p { has_screensaver_proxy = false; screensaver_active = false }) in
    (reset_idle_watch q, changed)

-- `GS_NAME` and the three names of the signal; `proxy_made` is the answer of D-Bus.
unfoldable pub on_bus_name_owner_changed :
    String → Option String → String → String → Bool → Presence → Presence
on_bus_name_owner_changed gs_name none old_name new_name proxy_made p = p
on_bus_name_owner_changed gs_name (some service) old_name new_name proxy_made p =
    if strcmp_eq service gs_name && strcmp_eq old_name "" && not (strcmp_eq new_name "")
    then record p { has_screensaver_proxy = proxy_made }
    else p

-- `gsm_presence_set_idle_enabled`.
unfoldable pub set_idle_enabled : Bool → Presence → Presence
unfolding reset_idle_watch
set_idle_enabled true p =
    if p.idle_enabled then p else reset_idle_watch (record p { idle_enabled = true })
set_idle_enabled false p =
    if p.idle_enabled then reset_idle_watch (record p { idle_enabled = false }) else p

unfoldable pub set_idle_timeout : ℕ → Presence → Presence
unfolding reset_idle_watch
set_idle_timeout timeout p =
    if timeout == p.idle_timeout then p else reset_idle_watch (record p { idle_timeout = timeout })

-- The state after construction: the default values of the properties (`gsm_presence_class_init`).
-- `made` says whether `gs_idle_monitor_new` gave a monitor.
unfoldable pub new : Bool → Presence
unfolding reset_idle_watch
new made = record {
  status = available;
  saved_status = 0;
  idle_enabled = false;
  has_idle_monitor = made;
  idle_watch_id = 0;
  next_watch_id = 1;
  idle_timeout = 300000;
  screensaver_active = false;
  has_screensaver_proxy = false;
}
