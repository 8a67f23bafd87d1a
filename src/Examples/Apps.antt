-- ===== src/Examples/Apps.antt =====
-- Autostart applications of mate-session/gsm-autostart-app.c at concrete states.
use mate_session_manager.Base.{
  ℕ, ◌≡◌, ◌≢◌, refl, Bool, true, false, not, none, some, List, [], ◌∷◌, pos, contains, is_nil, null,
  live, arith,
}
use mate_session_manager.Manager.Types.{application}
use mate_session_manager.Autostart.{
  load_from, Autostart, Surroundings, DesktopFile, if_exists, new, is_disabled, is_running, view,
}
use mate_session_manager.Autostart.Parse.{parse_condition_string}
use mate_session_manager.Autostart.Conditions.{
  is_conditionally_disabled, observe_all, setup_condition_monitor,
}
use mate_session_manager.Autostart.Conditions.Reading.{loaded}
use mate_session_manager.Autostart.Conditions.Tracking.{condition_is_kept}
use mate_session_manager.Autostart.Conditions.Bounds.{IsStarting, IsDelay, loaded_lem}
use mate_session_manager.Autostart.Launch.{
  System, Done, start, stop, restart, app_exited, dispose, not_running,
}
use mate_session_manager.Autostart.Launch.Life.{Life, born, starts, one_process_watched}
use mate_session_manager.Autostart.Launch.Restart.{restart_forgets_child}

-- The condition `if-exists a`.
abbrev text : List ℕ
text = 105 ∷ 102 ∷ 45 ∷ 101 ∷ 120 ∷ 105 ∷ 115 ∷ 116 ∷ 115 ∷ 32 ∷ 97 ∷ []

abbrev file : DesktopFile
file = record {
  get_string = λ s. none;
  get_boolean = λ s. false;
  has_key = λ s. false;
  get_integer = λ s. pos 3;
  get_string_list = λ s. none;
  condition = some text;
  can_launch = true;
  source = 47 ∷ 97 ∷ [];
}

-- With the file or without it.
abbrev with_file : Bool → Surroundings
with_file b = record { file_exists = λ f. b; has_schema = λ s. false; setting = λ s k. false }

abbrev app : Autostart
app = loaded (with_file false) "10" file

parsed : parse_condition_string text ≡ (if_exists, some (97 ∷ []))
unfolding parse_condition_string
parsed = refl

enabled : is_disabled (new (some file)) ≡ false
unfolding is_disabled
enabled = refl

looked : is_conditionally_disabled (with_file false) app ≡ some (app, true)
unfolding is_conditionally_disabled load_from setup_condition_monitor is_disabled
    parse_condition_string
looked = refl

condition_is_kept_example :
    let b = observe_all (with_file true ∷ []) app in
    is_conditionally_disabled (with_file true) b ≡ some (b, not b.condition)
condition_is_kept_example =
    condition_is_kept (with_file false) (with_file false) (with_file true ∷ []) "10" file text
      if_exists (97 ∷ []) app true refl parsed enabled looked

loaded_lem_example :
    let v = view (λ t. "a") 1 false app in
    IsStarting app.phase
    × IsDelay app.phase app.autostart_delay
    × (app.startup_id ≢ none)
    × (v.is_running ≡ false)
    × (app.phase ≢ application → v.autostart_delay ≡ 0)
    × (v.autorestart ≡ app.autorestart)
loaded_lem_example = loaded_lem (with_file false) "10" file (λ t. "a") 1 false

-- The application is started as the process 5.
abbrev system : System
system = record { launch = some 5; kill = λ p. true; bus = true; proxy = true }

abbrev running : Autostart
running = record app { pid = pos 5; child_watches = 5 ∷ []; child_watch_id = some 5 }

lived : Life app running
unfolding load_from setup_condition_monitor start is_running is_disabled parse_condition_string
lived =
    starts system app app (record { app = running; ok = true; error = null; sent = [] }) (born app)
      refl refl

one_process_watched_example :
    (is_running running ≡ not (is_nil running.child_watches))
    × ((p q : ℕ)
        → contains p running.child_watches ≡ true
        → contains q running.child_watches ≡ true
        → p ≡ q)
    × ((dispose running).child_watches ≡ [])
one_process_watched_example = one_process_watched (with_file false) "10" file running lived

-- It is restarted as the process 6.
abbrev again : System
again = record system { launch = some 6 }

restart_forgets_child_example :
    (d : Done) × (restart again running ≡ some d)
    × (d.ok ≡ true)
    × (let b = app_exited 5 d.app in
        (contains 6 b.child_watches ≡ true)
        × (is_running b ≡ false)
        × (stop again null b.launch_type b
            ≡ some (record { app = b; ok = false; error = live not_running; sent = [] })))
unfolding load_from setup_condition_monitor is_disabled parse_condition_string
restart_forgets_child_example =
    restart_forgets_child again running 4 6 refl refl refl refl (omega arith)
