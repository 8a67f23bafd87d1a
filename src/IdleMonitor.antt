-- ===== src/IdleMonitor.antt =====
-- mate-session/gs-idle-monitor.c: watches of the idle time, each with two alarms of the X server. The
-- server is outside: the alarms that it creates are arguments, and those that it was asked to
-- keep are recorded.
pub mod Values
pub mod Sound
use mate_session_manager.Base.{
  ℕ, suc, ◌+◌, ◌-◌, ◌*◌, ◌/◌, ◌%◌, ◌^◌, Bool, true, false, not, ◌||◌, Option, none, some, List, [],
  ◌∷◌, if◌then◌else◌, ◌==◌, leb, keep, remove_all,
}

-- `XSyncValue`: the words of 32 bits, the high one as its bits.
pub record Value : Type 0 where
  pub high : ℕ
  pub low : ℕ

-- A `gint64` is its 64 bits, a number below 2 ^ 64. `_xsyncvalue_to_int64`: the words do not overlap.
unfoldable pub xsyncvalue_to_int64 : Value → ℕ
xsyncvalue_to_int64 v = (v.high * 2 ^ 32 + v.low) % 2 ^ 64

-- `_int64_to_xsyncvalue`.
unfoldable pub int64_to_xsyncvalue : ℕ → Value
int64_to_xsyncvalue n = record { high = n / 2 ^ 32 % 2 ^ 32; low = n % 2 ^ 32 }

-- `GSIdleMonitorWatch`; the callback with its data is a number, and None is 0.
pub record Watch : Type 0 where
  pub id : ℕ
  pub interval : Value
  pub callback : ℕ
  pub positive : ℕ
  pub negative : ℕ

-- An alarm that the server keeps: whether it is for the positive transition, and the value waited for.
pub record Alarm : Type 0 where
  pub xid : ℕ
  pub on_positive : Bool
  pub wait : Value

-- `_GSIdleMonitor`: its table of watches, with the serial of the file and the alarms that were created
-- and not destroyed.
pub record Monitor : Type 0 where
  pub watches : List Watch
  pub watch_serial : ℕ
  pub alarms : List Alarm

abbrev pub new : Monitor
new = record { watches = []; watch_serial = 1; alarms = [] }

-- `_find_alarm`.
abbrev pub has_alarm : ℕ → Watch → Bool
has_alarm alarm w = (w.positive == alarm) || (w.negative == alarm)

-- `find_watch_for_alarm`; the table's order is the list's.
unfoldable pub find_watch : ℕ → List Watch → Option Watch
find_watch alarm [] = none
find_watch alarm (w ∷ r) =
    let rest = find_watch alarm r in if has_alarm alarm w then some w else rest

-- `handle_alarm_notify_event`: the callback that is called, with the identifier and the condition. An
-- alarm that is destroyed is let go.
unfoldable pub handle_alarm_notify_event : Bool → ℕ → Monitor → Option (ℕ × ℕ × Bool)
unfolding find_watch
handle_alarm_notify_event destroyed alarm m =
    if destroyed then none else elim (find_watch alarm m.watches) [
      | none ↦ none
      | some w ↦ some (w.callback, w.id, alarm == w.positive)
    ]

-- `get_next_watch_serial`: the serial after one, as an unsigned number of 32 bits whose sign is tested.
unfoldable pub next_serial : ℕ → ℕ
next_serial n = let s = (n + 1) % 2 ^ 32 in if leb (2 ^ 31) s then 1 else s

-- `idle_monitor_watch_new` and what `gs_idle_monitor_add_watch` sets.
unfoldable pub watch_new : ℕ → ℕ → ℕ → Watch
unfolding int64_to_xsyncvalue
watch_new serial interval callback = record {
  id = serial;
  interval = int64_to_xsyncvalue interval;
  callback = callback;
  positive = 0;
  negative = 0;
}

abbrev pub destroy_alarm : ℕ → List Alarm → List Alarm
destroy_alarm x l = keep (λ (a : Alarm). not (a.xid == x)) l

-- `idle_monitor_watch_free`.
unfoldable pub watch_free : Watch → List Alarm → List Alarm
watch_free w l =
    let l = if w.positive == 0 then l else destroy_alarm w.positive l in
    if w.negative == 0 then l else destroy_alarm w.negative l

unfoldable pub free_each : List Watch → List Alarm → List Alarm
unfolding watch_free
free_each [] l = l
free_each (w ∷ r) l = free_each r (watch_free w l)

-- `_xsync_alarm_set`: the value waited for, one below the interval in 64 bits.
unfoldable pub wait_value : Value → Value
unfolding xsyncvalue_to_int64 int64_to_xsyncvalue
wait_value v = int64_to_xsyncvalue ((xsyncvalue_to_int64 v + (2 ^ 64 - 1)) % 2 ^ 64)

-- An alarm that is there is changed, with the same values; else one is created, which the server
-- gives the number `fresh`.
abbrev alarm_for : ℕ → ℕ → ℕ
alarm_for old fresh = if old == 0 then fresh else old

unfoldable pub alarm_set : ℕ → ℕ → Watch → List Alarm → Watch × List Alarm
unfolding wait_value
alarm_set p n w l =
    let p = alarm_for w.positive p in
    let n = alarm_for w.negative n in
    let wait = wait_value w.interval in
    (
      record w { positive = p; negative = n },
      record { xid = n; on_positive = false; wait = wait }
          ∷ record { xid = p; on_positive = true; wait = wait }
          ∷ destroy_alarm n (destroy_alarm p l),
    )

abbrev pub with_id : ℕ → Watch → Bool
with_id id w = w.id == id

-- A watch is taken out of the table, and freed.
unfoldable pub remove_watch : ℕ → Monitor → Monitor
unfolding free_each
remove_watch id m = record m {
  watches = keep (λ (w : Watch). not (with_id id w)) m.watches;
  alarms = free_each (keep (with_id id) m.watches) m.alarms;
}

-- `gs_idle_monitor_add_watch`: one that has the same identifier is replaced, and freed. The server gives
-- the alarms `p` and `n`.
unfoldable pub add_watch : ℕ → ℕ → ℕ → ℕ → Monitor → Monitor × ℕ
unfolding next_serial watch_new alarm_set remove_watch
add_watch p n interval callback m =
    let id = m.watch_serial in
    let set = alarm_set p n (watch_new id interval callback) m.alarms in
    let left = remove_watch id (record m { alarms = set.1 }) in
    (record left { watches = set.0 ∷ left.watches; watch_serial = next_serial id }, id)

-- `gs_idle_monitor_dispose`.
unfoldable pub dispose : Monitor → Monitor
unfolding free_each
dispose m = record m { watches = []; alarms = free_each m.watches m.alarms }
