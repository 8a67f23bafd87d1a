-- ===== src/IdleMonitor/Sound.antt =====
-- The alarms that the server keeps are those of the watches (mate-session/gs-idle-monitor.c).
pub mod Alarms
use mate_session_manager.Base.{
  ℕ, ◌≡◌, ◌≢◌, refl, ap, Bool, true, false, not, ◌&&◌, ◌||◌, List, [], ◌∷◌, if◌then◌else◌, ◌==◌,
  keep, contains, arith,
}
use mate_session_manager.IdleMonitor.{
  Watch, Alarm, Monitor, has_alarm, destroy_alarm, watch_free, free_each, with_id,
}

-- The numbers of the alarms that the server keeps, and of those that the watches have.
abbrev pub xids : List Alarm → List ℕ
xids [] = []
xids (a ∷ r) = a.xid ∷ xids r

abbrev pub alarms_of : List Watch → List ℕ
alarms_of [] = []
alarms_of (w ∷ r) = w.positive ∷ w.negative ∷ alarms_of r

abbrev pub no_dups : List ℕ → Bool
no_dups [] = true
no_dups (x ∷ r) = not (contains x r) && no_dups r

-- No two watches share an alarm, none has the alarm None, and the server keeps exactly the alarms of
-- the watches.
abbrev pub IsSound : Monitor → Type 0
IsSound m =
    (no_dups (alarms_of m.watches) ≡ true)
    × (contains 0 (alarms_of m.watches) ≡ false)
    × ((a : ℕ) → a ≢ 0 → contains a (xids m.alarms) ≡ contains a (alarms_of m.watches))

pub destroy_alarm-contains :
    (a x : ℕ) (l : List Alarm)
    → contains a (xids (destroy_alarm x l)) ≡ contains a (xids l) && not (x == a)
destroy_alarm-contains a x [] = refl
destroy_alarm-contains a x (b ∷ l) = ground (arith, destroy_alarm-contains a x l)

pub watch_free-contains :
    (a : ℕ) (w : Watch) (l : List Alarm)
    → a ≢ 0
    → contains a (xids (watch_free w l)) ≡ contains a (xids l) && not (has_alarm a w)
unfolding watch_free
watch_free-contains a w l h = ground (
  arith,
  destroy_alarm-contains a w.positive l,
  destroy_alarm-contains a w.negative l,
  destroy_alarm-contains a w.negative (destroy_alarm w.positive l),
)

pub free_each-contains :
    (a : ℕ) (ws : List Watch) (l : List Alarm)
    → a ≢ 0
    → contains a (xids (free_each ws l)) ≡ contains a (xids l) && not (contains a (alarms_of ws))
unfolding free_each
free_each-contains a [] l h = ground arith
free_each-contains a (w ∷ ws) l h =
    ground (arith, free_each-contains a ws (watch_free w l) h, watch_free-contains a w l h)

-- The alarms of some watches and of the others are those of all.
pub alarms_of-split :
    (a id : ℕ) (ws : List Watch)
    → contains a (alarms_of ws)
      ≡ contains a (alarms_of (keep (with_id id) ws))
        || contains a (alarms_of (keep (λ (w : Watch). not (with_id id w)) ws))
alarms_of-split a id [] = refl
alarms_of-split a id (w ∷ ws) = ground (arith, alarms_of-split a id ws)

pub contains-same : (a b : ℕ) (l : List ℕ) → (b == a) ≡ true → contains a l ≡ contains b l
contains-same a b l h = ap (λ (x : ℕ). contains x l) (ground arith)

pub alarms_of-apart :
    (a id : ℕ) (ws : List Watch)
    → no_dups (alarms_of ws) ≡ true
    → contains a (alarms_of (keep (with_id id) ws))
        && contains a (alarms_of (keep (λ (w : Watch). not (with_id id w)) ws))
      ≡ false
alarms_of-apart a id [] h = refl
alarms_of-apart a id (w ∷ ws) h =
    let apart = alarms_of-apart a id ws (ground arith) in
    let split = alarms_of-split a id ws in
    let p = contains-same a w.positive (alarms_of ws) in
    let n = contains-same a w.negative (alarms_of ws) in ground arith

pub no_dups-keep :
    (id : ℕ) (ws : List Watch)
    → no_dups (alarms_of ws) ≡ true
    → no_dups (alarms_of (keep (λ (w : Watch). not (with_id id w)) ws)) ≡ true
no_dups-keep id [] h = refl
no_dups-keep id (w ∷ ws) h =
    ground (
      arith,
      no_dups-keep id ws,
      alarms_of-split w.positive id ws,
      alarms_of-split w.negative id ws,
    )
