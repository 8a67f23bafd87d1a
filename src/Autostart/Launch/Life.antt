-- ===== src/Autostart/Launch/Life.antt =====
-- The process of an application that is started only when it does not run
-- (mate-session/gsm-autostart-app.c).
use mathlib.Core.Path.{subst}
use mate_session_manager.Base.{
  null, ℕ, suc, zero, ℤ, pos, negsuc, ◌≡◌, ◌⊎◌, inl, inr, refl, ap, Bool, true, false, not, Option,
  none, some, List, [], ◌∷◌, String, if◌then◌else◌, remove_all, is_nil, contains, arith,
}
use mate_session_manager.Autostart.{
  Autostart, LaunchType, spawn, activate, no_number, is_running, Surroundings, DesktopFile,
}
use mate_session_manager.Autostart.Launch.{
  System, Done, start, stop, start_spawn, stop_spawn, start_activate, app_exited, dispose,
  set_error,
}
use mate_session_manager.Autostart.Conditions.Bounds.{loaded-Others}
use mate_session_manager.Autostart.Conditions.Reading.{loaded}

-- What happens to an application: it is started while it does not run, it is stopped, or a process
-- that is watched exits. `restart` is left out.
pub data Life : Autostart → Autostart → Type 0 where
  born : (a : Autostart) → Life a a
  starts :
      (sys : System) (a b : Autostart) (d : Done)
      → Life a b
      → is_running b ≡ false
      → start sys null b.launch_type b ≡ some d
      → Life a d.app
  stops :
      (sys : System) (a b : Autostart) (d : Done)
      → Life a b
      → stop sys null b.launch_type b ≡ some d
      → Life a d.app
  exits :
      (a b : Autostart) (p : ℕ)
      → Life a b
      → contains p b.child_watches ≡ true
      → Life a (app_exited p b)

-- No process is known and none is watched, or the one that is known is the only one that is watched,
-- and can be disconnected.
abbrev IsTracked : Autostart → Type 0
IsTracked a =
    ((a.pid ≡ no_number) × (a.child_watches ≡ []) × (a.child_watch_id ≡ none))
    ⊎ ((p : ℕ) × (a.pid ≡ pos p) × (a.child_watches ≡ p ∷ []) × (a.child_watch_id ≡ some p))

-- Of the application that a call leaves, if it returns.
abbrev AllTracked : Option Done → Type 0
AllTracked none = Unit {0}
AllTracked (some d) = IsTracked d.app

not_running-pid :
    (a : Autostart)
    → IsTracked a
    → is_running a ≡ false
    → (a.child_watches ≡ []) × (a.child_watch_id ≡ none)
unfolding is_running
not_running-pid a (inl (e, w, i)) r = (w, i)
not_running-pid a (inr (p, e, w, i)) r = ground arith

start_spawn-AllTracked :
    (o : Option ℕ) (a : Autostart)
    → IsTracked a
    → is_running a ≡ false
    → AllTracked (start_spawn o null a)
unfolding start_spawn set_error
start_spawn-AllTracked none a t r = t
start_spawn-AllTracked (some p) a t r = inr (p, refl, ap (◌∷◌ p) (not_running-pid a t r).0, refl)

either_way :
    (b : Bool) (x y : Option Done) → AllTracked x → AllTracked y → AllTracked (if b then x else y)
either_way true x y p q = p
either_way false x y p q = q

start_activate-AllTracked :
    (sys : System) (a : Autostart) → IsTracked a → AllTracked (start_activate sys null a)
unfolding start_activate set_error
start_activate-AllTracked sys a t = either_way sys.bus _ _ (either_way sys.proxy _ _ t t) t

start-AllTracked :
    (sys : System) (l : LaunchType) (a : Autostart)
    → IsTracked a
    → is_running a ≡ false
    → AllTracked (start sys null l a)
unfolding start
start-AllTracked sys spawn a t r = start_spawn-AllTracked sys.launch a t r
start-AllTracked sys activate a t r = start_activate-AllTracked sys a t

stop_spawn-AllTracked :
    (sys : System) (p : ℤ) (a : Autostart) → IsTracked a → AllTracked (stop_spawn sys null p a)
unfolding stop_spawn set_error
stop_spawn-AllTracked sys (negsuc _) a t = t
stop_spawn-AllTracked sys (pos zero) a t = t
stop_spawn-AllTracked sys (pos (suc n)) a t = either_way (sys.kill (suc n)) _ _ t t

stop-AllTracked :
    (sys : System) (l : LaunchType) (a : Autostart) → IsTracked a → AllTracked (stop sys null l a)
unfolding stop
stop-AllTracked sys spawn a t = stop_spawn-AllTracked sys a.pid a t
stop-AllTracked sys activate a t = t

app_exited-IsTracked :
    (a : Autostart) (p : ℕ)
    → IsTracked a
    → contains p a.child_watches ≡ true
    → IsTracked (app_exited p a)
unfolding app_exited remove_all
app_exited-IsTracked a p (inl (e, w, i)) h = inl (refl, rw w, refl)
app_exited-IsTracked a p (inr (q, e, w, i)) h = inl (refl, only_one p q a.child_watches w h, refl)
  where
    only_one : (p q : ℕ) (l : List ℕ) → l ≡ q ∷ [] → contains p l ≡ true → remove_all p l ≡ []
    only_one p q l e h = ground arith

Life-IsTracked : (a b : Autostart) → IsTracked a → Life a b → IsTracked b
Life-IsTracked a b t (born _) = t
Life-IsTracked a _ t (starts sys _ b d l r h) =
    subst AllTracked h (start-AllTracked sys b.launch_type b (Life-IsTracked a b t l) r)
Life-IsTracked a _ t (stops sys _ b d l h) =
    subst AllTracked h (stop-AllTracked sys b.launch_type b (Life-IsTracked a b t l))
Life-IsTracked a _ t (exits _ b p l h) = app_exited-IsTracked b p (Life-IsTracked a b t l) h

tracked_lem :
    (a : Autostart)
    → IsTracked a
    → (is_running a ≡ not (is_nil a.child_watches))
      × ((p q : ℕ) → contains p a.child_watches ≡ true → contains q a.child_watches ≡ true → p ≡ q)
      × ((dispose a).child_watches ≡ [])
unfolding is_running dispose remove_all
tracked_lem a (inl (e, w, i)) = (rw (e, w), λ p q g h. ground arith, rw (i, w))
tracked_lem a (inr (r, e, w, i)) = (rw (e, w), λ p q g h. ground arith, rw (i, w) (ground arith))

-- An application that was loaded, after any starts while it does not run, stops, and exits of processes
-- that are watched: it is reported as running exactly when a process of it is watched, at most one
-- process is watched, and when the object is disposed of no watch is left.
pub one_process_watched :
    (before : Surroundings) (fresh : String) (f : DesktopFile) (a : Autostart)
    → Life (loaded before fresh f) a
    → (is_running a ≡ not (is_nil a.child_watches))
      × ((p q : ℕ) → contains p a.child_watches ≡ true → contains q a.child_watches ≡ true → p ≡ q)
      × ((dispose a).child_watches ≡ [])
one_process_watched before fresh f a l =
    let (_, n, _, _, w, i) = loaded-Others before fresh f in
    tracked_lem a (Life-IsTracked (loaded before fresh f) a (inl (n, w, i)) l)
