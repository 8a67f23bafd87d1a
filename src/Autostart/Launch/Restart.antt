-- ===== src/Autostart/Launch/Restart.antt =====
-- What `gsm_autostart_app_restart` does with the process and the error that it leaves behind
-- (mate-session/gsm-autostart-app.c).
use mate_session_manager.Base.{
  null, live, ℕ, suc, zero, ℤ, pos, negsuc, ◌≡◌, ◌≢◌, ◌↔◌, refl, Bool, true, false, Option, none,
  some, [], ◌∷◌, remove_all, contains, arith,
}
use mate_session_manager.Autostart.{Autostart, spawn, is_running}
use mate_session_manager.Autostart.Launch.{
  System, Done, not_running, start, stop, start_spawn, stop_spawn, app_exited, restart, set_error,
}

-- The processes that are known and were just started.
abbrev started : ℕ → Autostart → Autostart
started p a = record a { pid = pos p; child_watches = p ∷ a.child_watches; child_watch_id = some p }

restart_running :
    (sys : System) (a : Autostart) (n m : ℕ)
    → a.launch_type ≡ spawn
    → a.pid ≡ pos (suc n)
    → sys.kill (suc n) ≡ true
    → sys.launch ≡ some m
    → restart sys a
      ≡ some (record { app = started m a; ok = true; error = null; sent = suc n ∷ [] })
unfolding restart start stop start_spawn stop_spawn
restart_running sys a n m t p k l = ground arith

-- After a restart of a spawned application that runs, when the signal is sent and the new process
-- starts under another number, and the old process then exits: the new process is watched and yet
-- the application is reported as not running, and a stop of it fails as not running, without a signal.
pub restart_forgets_child :
    (sys : System) (a : Autostart) (n m : ℕ)
    → a.launch_type ≡ spawn
    → a.pid ≡ pos (suc n)
    → sys.kill (suc n) ≡ true
    → sys.launch ≡ some m
    → m ≢ suc n
    → (d : Done) × (restart sys a ≡ some d)
      × (d.ok ≡ true)
      × (let b = app_exited (suc n) d.app in
          (contains m b.child_watches ≡ true)
          × (is_running b ≡ false)
          × (stop sys null b.launch_type b
              ≡ some (record { app = b; ok = false; error = live not_running; sent = [] })))
unfolding app_exited is_running stop stop_spawn set_error remove_all
restart_forgets_child sys a n m t p k l d =
    (_, restart_running sys a n m t p k l, refl, (ground arith, refl, rw t))

-- Whether a stop of a process succeeds.
abbrev pub can_stop : System → ℤ → Bool
can_stop sys (pos (suc n)) = sys.kill (suc n)
can_stop sys (pos zero) = false
can_stop sys (negsuc _) = false

restart_spawn :
    (sys : System) (o : Option ℕ) (p : ℤ) (a : Autostart)
    → a.launch_type ≡ spawn
    → sys.launch ≡ o
    → a.pid ≡ p
    → (restart sys a ≡ none) ↔ ((o ≡ none) × (can_stop sys p ≡ false))
unfolding restart start stop start_spawn stop_spawn set_error
restart_spawn sys none (negsuc n) a t l p = (λ e. ground arith, λ e. ground arith)
restart_spawn sys none (pos zero) a t l p = (λ e. ground arith, λ e. ground arith)
restart_spawn sys none (pos (suc n)) a t l p = (λ e. ground arith, λ e. ground arith)
restart_spawn sys (some m) (negsuc n) a t l p = (λ e. ground arith, λ e. ground arith)
restart_spawn sys (some m) (pos zero) a t l p = (λ e. ground arith, λ e. ground arith)
restart_spawn sys (some m) (pos (suc n)) a t l p = (λ e. ground arith, λ e. ground arith)

-- A restart of a spawned application reads an error that was freed, exactly when the process cannot be
-- stopped, there being none or `kill` failing, and no new process can be started.
pub restart_reads_freed :
    (sys : System) (a : Autostart)
    → a.launch_type ≡ spawn
    → (restart sys a ≡ none) ↔ ((sys.launch ≡ none) × (can_stop sys a.pid ≡ false))
restart_reads_freed sys a t = restart_spawn sys sys.launch a.pid a t refl refl
