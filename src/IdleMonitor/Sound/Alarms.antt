-- ===== src/IdleMonitor/Sound/Alarms.antt =====
-- Watches are added and removed, and their alarms go off (mate-session/gs-idle-monitor.c).
use mate_session_manager.Base.{
  ℕ, ◌^◌, ◌<◌, ◌≤◌, ◌≡◌, ◌≢◌, refl, sym, ◌∙◌, Bool, true, false, not, ◌&&◌, ◌||◌, none, some, List,
  [], ◌∷◌, if◌then◌else◌, ◌==◌, keep, contains, arith,
}
use mate_session_manager.IdleMonitor.{
  Watch, Alarm, Value, Monitor, new, destroy_alarm, free_each, with_id, find_watch,
  handle_alarm_notify_event, next_serial, watch_new, alarm_set, remove_watch, add_watch, dispose,
}
use mate_session_manager.IdleMonitor.Sound.{
  xids, alarms_of, no_dups, IsSound, destroy_alarm-contains, free_each-contains, alarms_of-split,
  alarms_of-apart, no_dups-keep, contains-same,
}

-- What the server gives for a new watch: two alarms that it does not keep yet, neither of them None.
abbrev pub AreFresh : ℕ → ℕ → Monitor → Type 0
AreFresh p n m =
    (p ≢ 0)
    × (n ≢ 0)
    × (p ≢ n)
    × (contains p (xids m.alarms) ≡ false)
    × (contains n (xids m.alarms) ≡ false)

remove_watch-IsSound : (id : ℕ) (m : Monitor) → IsSound m → IsSound (remove_watch id m)
unfolding remove_watch
remove_watch-IsSound id m (d, z, c) = (
  no_dups-keep id m.watches d,
  ground (arith, alarms_of-split 0 id m.watches),
  λ a h. ground (
    arith,
    free_each-contains a (keep (with_id id) m.watches) m.alarms h,
    c a h,
    alarms_of-split a id m.watches,
    alarms_of-apart a id m.watches d,
  ),
)

-- With `w` that the alarm is one of the watches, `f` of those that are freed, and `k` of the others.
of_bools :
    (pa na x y l w f k : Bool)
    → x ≡ y && not na
    → y ≡ l && not pa
    → l ≡ w
    → w ≡ f || k
    → f && k ≡ false
    → (pa ≡ true → w ≡ false)
    → (na ≡ true → w ≡ false)
    → (na || (pa || x)) && not f ≡ pa || (na || k)
of_bools pa na x y l w f k e1 e2 e3 e4 e5 e6 e7 = ground arith

-- The third part of the invariant, for one alarm.
added_alarms :
    (a p n id : ℕ) (wait : Value) (ws : List Watch) (l : List Alarm)
    → a ≢ 0
    → contains p (alarms_of ws) ≡ false
    → contains n (alarms_of ws) ≡ false
    → no_dups (alarms_of ws) ≡ true
    → contains a (xids l) ≡ contains a (alarms_of ws)
    → contains a (
        xids (
          free_each (keep (with_id id) ws) (
            record { xid = n; on_positive = false; wait = wait }
            ∷ record { xid = p; on_positive = true; wait = wait }
            ∷ destroy_alarm n (destroy_alarm p l))))
      ≡ (p == a)
        || ((n == a) || contains a (alarms_of (keep (λ (w : Watch). not (with_id id w)) ws)))
added_alarms a p n id wait ws l h gp gn d c =
    free_each-contains a (keep (with_id id) ws) _ h
    ∙ of_bools (p == a) (n == a) _ (contains a (xids (destroy_alarm p l))) _ _ _ _
        (destroy_alarm-contains a n (destroy_alarm p l)) (destroy_alarm-contains a p l) c
        (alarms_of-split a id ws) (alarms_of-apart a id ws d)
        (λ e. contains-same a p (alarms_of ws) e ∙ gp)
        (λ e. contains-same a n (alarms_of ws) e ∙ gn)

add_watch-IsSound :
    (p n interval callback : ℕ) (m : Monitor)
    → AreFresh p n m
    → IsSound m
    → IsSound (add_watch p n interval callback m).0
unfolding add_watch remove_watch alarm_set watch_new
add_watch-IsSound p n interval callback m (p0, n0, pn, fp, fn) (d, z, c) =
    let gp : contains p (alarms_of m.watches) ≡ false = sym (c p p0) ∙ fp in
    let gn : contains n (alarms_of m.watches) ≡ false = sym (c n n0) ∙ fn in
    let sp = alarms_of-split p m.watch_serial m.watches in
    let sn = alarms_of-split n m.watch_serial m.watches in
    let sz = alarms_of-split 0 m.watch_serial m.watches in
    let kd = no_dups-keep m.watch_serial m.watches d in
    (
      ground arith,
      ground arith,
      λ a h. added_alarms a p n m.watch_serial _ m.watches m.alarms h gp gn d (c a h),
    )

-- An alarm goes off.
find_watch-kept :
    (a id : ℕ) (ws : List Watch)
    → contains a (alarms_of (keep (with_id id) ws)) ≡ false
    → find_watch a (keep (λ (w : Watch). not (with_id id w)) ws) ≡ find_watch a ws
unfolding find_watch
find_watch-kept a id [] h = refl
find_watch-kept a id (w ∷ ws) h = ground (arith, find_watch-kept a id ws)

-- The watches and their alarms over time: from none, watches are added, for which the server gives
-- alarms that it does not keep yet, and removed.
pub data History : Monitor → Type 0 where
  start : History new
  added :
      (p n interval callback : ℕ) (m : Monitor)
      → History m
      → AreFresh p n m
      → History (add_watch p n interval callback m).0
  removed : (id : ℕ) (m : Monitor) → History m → History (remove_watch id m)

serial_lem : (n : ℕ) → n < 2 ^ 31 → (1 ≤ next_serial n) × (next_serial n < 2 ^ 31)
unfolding next_serial
serial_lem n h = (ground arith, ground arith)

History-IsSound :
    (m : Monitor) → History m → IsSound m × (1 ≤ m.watch_serial) × (m.watch_serial < 2 ^ 31)
unfolding add_watch remove_watch
History-IsSound _ start = ((refl, refl, λ a h. refl), omega arith, omega arith)
History-IsSound _ (added p n interval callback m h f) =
    let (q, l, u) = History-IsSound m h in
    let (a, b) = serial_lem m.watch_serial u in
    (add_watch-IsSound p n interval callback m f q, a, b)
History-IsSound _ (removed id m h) =
    let (q, l, u) = History-IsSound m h in (remove_watch-IsSound id m q, l, u)

-- Whenever watches were added and removed, in any order and with the server giving alarms that it does
-- not keep yet: the server keeps exactly the alarms of the watches, no two watches share one, the
-- next serial is from 1 to 2 ^ 31 - 1, and when the monitor is disposed of the server keeps none.
pub history-IsSound :
    (m : Monitor)
    → History m
    → IsSound m
      × (1 ≤ m.watch_serial)
      × (m.watch_serial < 2 ^ 31)
      × ((a : ℕ) → a ≢ 0 → contains a (xids (dispose m).alarms) ≡ false)
unfolding dispose
history-IsSound m h =
    let ((d, z, c), l, u) = History-IsSound m h in
    (
      (d, z, c),
      l,
      u,
      λ a e.
          free_each-contains a m.watches m.alarms e ∙ gone (contains a (xids m.alarms)) _ (c a e),
    )
  where
    gone : (x y : Bool) → x ≡ y → x && not y ≡ false
    gone x y e = ground arith

find_watch-absent :
    (a : ℕ) (ws : List Watch) → contains a (alarms_of ws) ≡ false → find_watch a ws ≡ none
unfolding find_watch
find_watch-absent a [] h = refl
find_watch-absent a (w ∷ ws) h = ground (arith, find_watch-absent a ws)

-- A watch is added, with alarms that the server does not keep yet. When its alarm for the positive
-- transition goes off, its callback is called with its identifier and TRUE, and with FALSE when the
-- other one does; any other alarm that is not of a watch with the same identifier does what it did
-- before, and a notice that an alarm was destroyed does nothing.
pub add_watch-notifies :
    (p n interval callback : ℕ) (m : Monitor)
    → History m
    → AreFresh p n m
    → let (after, id) = add_watch p n interval callback m in
      (handle_alarm_notify_event false p after ≡ some (callback, id, true))
      × (handle_alarm_notify_event false n after ≡ some (callback, id, false))
      × ((a : ℕ)
          → a ≢ p
          → a ≢ n
          → contains a (alarms_of (keep (with_id id) m.watches)) ≡ false
          → handle_alarm_notify_event false a after ≡ handle_alarm_notify_event false a m)
      × ((a : ℕ) → handle_alarm_notify_event true a after ≡ none)
unfolding add_watch remove_watch alarm_set watch_new handle_alarm_notify_event find_watch
add_watch-notifies p n interval callback m h (p0, n0, pn, fp, fn) = (
  ground arith,
  ground arith,
  λ a ap an c. let k = find_watch-kept a m.watch_serial m.watches c in ground arith,
  λ a. refl,
)

-- After a watch was removed no alarm that it had does anything, and every other alarm does what it did.
pub remove_watch-notifies :
    (id a : ℕ) (m : Monitor)
    → History m
    → handle_alarm_notify_event false a (remove_watch id m) ≡ (
        if contains a (alarms_of (keep (with_id id) m.watches))
        then none
        else handle_alarm_notify_event false a m)
unfolding remove_watch handle_alarm_notify_event
remove_watch-notifies id a m h =
    let ((d, _, _), _, _) = History-IsSound m h in
    let apart = alarms_of-apart a id m.watches d in
    let kept = find_watch-kept a id m.watches in
    let absent = find_watch-absent a (keep (λ (w : Watch). not (with_id id w)) m.watches) in
    ground arith
