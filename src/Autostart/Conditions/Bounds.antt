-- ===== src/Autostart/Conditions/Bounds.antt =====
-- What an application that was loaded can be: its phase, its delay and its startup id
-- (mate-session/gsm-autostart-app.c).
use mate_session_manager.Base.{
  List, [], ℕ, ◌≡◌, ◌≢◌, ◌⊎◌, inr, refl, ap, sym, ◌∙◌, Bool, true, false, Option, none, some,
  String, if◌then◌else◌, ℤ, is_negative, arith,
}
use mate_session_manager.Manager.Types.{
  Phase, initialization, window_manager, panel, desktop, application, startup, running,
  query_end_session, end_session, exit,
}
use mate_session_manager.Autostart.{
  ConditionKind, if_exists, unless_exists, mate, gsettings, unknown, is_running, get_autorestart,
  Surroundings, Autostart, DesktopFile, phase_of, delay_of, load_from, view, no_number, delay_seen,
}
use mate_session_manager.Autostart.Conditions.{
  setup_condition_monitor, setup_for, watch_parsed, monitor_for, setup_gsettings_condition_monitor,
}
use mate_session_manager.Autostart.Parse.{parse_condition_string}
use mate_session_manager.Autostart.Conditions.Reading.{loaded}

-- The phases in which applications start.
abbrev pub IsStarting : Phase → Type 0
IsStarting p =
    (p ≡ initialization) ⊎ (p ≡ window_manager) ⊎ (p ≡ panel) ⊎ (p ≡ desktop) ⊎ (p ≡ application)

phase_of-IsStarting : (o : Option String) → IsStarting (phase_of o)
unfolding phase_of
phase_of-IsStarting none = inr (inr (inr (inr refl)))
phase_of-IsStarting (some s) = ground arith

-- A delay is none, that is -1, or a number that is not negative; before the application phase it is none.
abbrev pub IsDelay : Phase → ℤ → Type 0
IsDelay application d = (d ≡ no_number) ⊎ (is_negative d ≡ false)
IsDelay _ d = d ≡ no_number

delay_of-IsDelay :
    (p : Phase) (f : DesktopFile) (old : ℤ) → old ≡ no_number → IsDelay p (delay_of p f old)
unfolding delay_of
delay_of-IsDelay application f old e = ground arith
delay_of-IsDelay startup f old e = e
delay_of-IsDelay initialization f old e = e
delay_of-IsDelay window_manager f old e = e
delay_of-IsDelay panel f old e = e
delay_of-IsDelay desktop f old e = e
delay_of-IsDelay running f old e = e
delay_of-IsDelay query_end_session f old e = e
delay_of-IsDelay end_session f old e = e
delay_of-IsDelay exit f old e = e

-- What watching the condition leaves alone.
abbrev Others : Autostart → Autostart → Type 0
Others a b =
    (b.autostart_delay ≡ a.autostart_delay)
    × (b.pid ≡ a.pid)
    × (b.autorestart ≡ a.autorestart)
    × (b.desktop_file ≡ a.desktop_file)
    × (b.child_watches ≡ a.child_watches)
    × (b.child_watch_id ≡ a.child_watch_id)

watch_parsed-Others :
    (out : Surroundings) (p : ConditionKind × Option (List ℕ)) (a : Autostart)
    → Others a (watch_parsed out p a)
unfolding monitor_for setup_gsettings_condition_monitor
watch_parsed-Others out (kind, none) a = (refl, refl, refl, refl, refl, refl)
watch_parsed-Others out (if_exists, some key) a = (refl, refl, refl, refl, refl, refl)
watch_parsed-Others out (unless_exists, some key) a = (refl, refl, refl, refl, refl, refl)
watch_parsed-Others out (mate, some key) a =
    (ground arith, ground arith, ground arith, ground arith, ground arith, ground arith)
watch_parsed-Others out (gsettings, some key) a =
    (ground arith, ground arith, ground arith, ground arith, ground arith, ground arith)
watch_parsed-Others out (unknown, some key) a = (refl, refl, refl, refl, refl, refl)

setup_for-Others :
    (out : Surroundings) (o : Option (List ℕ)) (disabled : Bool) (a : Autostart)
    → Others a (setup_for out o disabled a)
unfolding setup_for
setup_for-Others out none disabled a = (refl, refl, refl, refl, refl, refl)
setup_for-Others out (some t) true a = (refl, refl, refl, refl, refl, refl)
setup_for-Others out (some t) false a = watch_parsed-Others out (parse_condition_string t) a

IsDelay-view : (p : Phase) (d : ℤ) → IsDelay p d → p ≢ application → delay_seen d ≡ 0
IsDelay-view application d h n = elim (n refl) [ ]
IsDelay-view startup d h n = ap delay_seen h
IsDelay-view initialization d h n = ap delay_seen h
IsDelay-view window_manager d h n = ap delay_seen h
IsDelay-view panel d h n = ap delay_seen h
IsDelay-view desktop d h n = ap delay_seen h
IsDelay-view running d h n = ap delay_seen h
IsDelay-view query_end_session d h n = ap delay_seen h
IsDelay-view end_session d h n = ap delay_seen h
IsDelay-view exit d h n = ap delay_seen h

pub loaded-Others :
    (before : Surroundings) (fresh : String) (f : DesktopFile)
    → let a = loaded before fresh f in
      IsDelay a.phase a.autostart_delay
      × (a.pid ≡ no_number)
      × (a.autorestart
          ≡ (if f.has_key "X-MATE-AutoRestart" then f.get_boolean "X-MATE-AutoRestart" else false))
      × (a.desktop_file ≡ some f)
      × (a.child_watches ≡ [])
      × (a.child_watch_id ≡ none)
unfolding load_from setup_condition_monitor
loaded-Others before fresh f = (
  delay_of-IsDelay _ f _ (setup_for-Others before f.condition _ _).0,
  (setup_for-Others before f.condition _ _).1,
  (setup_for-Others before f.condition _ _).2,
  (setup_for-Others before f.condition _ _).3,
  (setup_for-Others before f.condition _ _).4,
  (setup_for-Others before f.condition _ _).5,
)

loaded-phase :
    (before : Surroundings) (fresh : String) (f : DesktopFile)
    → IsStarting (loaded before fresh f).phase × ((loaded before fresh f).startup_id ≢ none)
unfolding load_from
loaded-phase before fresh f = (phase_of-IsStarting (f.get_string "X-MATE-Autostart-Phase"), λ e. cc)

not_running : (a : Autostart) → a.pid ≡ no_number → is_running a ≡ false
unfolding is_running
not_running a e = rw e

autorestart_lem :
    (a : Autostart) (f : DesktopFile)
    → a.desktop_file ≡ some f
    → get_autorestart a
      ≡ (if f.has_key "X-MATE-AutoRestart" then f.get_boolean "X-MATE-AutoRestart" else false)
unfolding get_autorestart
autorestart_lem a f e = rw e

-- An application that was loaded, from any desktop file and in any surroundings, starts in one of the
-- five phases from initialization to application; its delay is -1, or not negative if its phase is
-- the application phase; it has a startup id; the manager sees it as not running, with no delay
-- before the application phase, and with the autorestart that was kept.
pub loaded_lem :
    (before : Surroundings) (fresh : String) (f : DesktopFile) (text : List ℕ → String) (id : ℕ)
    (c : Bool)
    → let a = loaded before fresh f in
      let v = view text id c a in
      IsStarting a.phase
      × IsDelay a.phase a.autostart_delay
      × (a.startup_id ≢ none)
      × (v.is_running ≡ false)
      × (a.phase ≢ application → v.autostart_delay ≡ 0)
      × (v.autorestart ≡ a.autorestart)
unfolding view
loaded_lem before fresh f text id c =
    let a = loaded before fresh f in
    let (p, s) = loaded-phase before fresh f in
    let (d, n, r, g, _, _) = loaded-Others before fresh f in
    (
      p,
      d,
      s,
      not_running a n,
      IsDelay-view a.phase a.autostart_delay d,
      autorestart_lem a f g ∙ sym r,
    )
