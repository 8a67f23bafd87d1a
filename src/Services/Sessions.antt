-- ===== src/Services/Sessions.antt =====
-- Whether the user has another graphical session (mate-session/gsm-systemd.c).
use mate_session_manager.Base.{
  ◌≡◌, refl, ◌↔◌, ◌⊎◌, ℤ, pos, negsuc, zero, suc, ℕ, Bool, true, false, not, ◌&&◌, ◌||◌, Option,
  none, some, List, [], ◌∷◌, String, arith,
}
use text.Mathlib.TextEquality.{eq_iff}
use mate_session_manager.Services.Systemd.{
  Logind, is_last_session_for_user, last_among, last_of_pid, last_of_list, is_zero, strcmp0_eq,
}

-- A session is open: its state can be read and is not "closing", and its type can be read and is that
-- of a graphical session.
abbrev open_now : Logind → String → Bool
open_now l s =
    is_zero (l.session_get_state s).0
    && (not (strcmp0_eq (l.session_get_state s).1 "closing")
        && (is_zero (l.session_get_type s).0
            && (strcmp0_eq (l.session_get_type s).1 "x11"
                || strcmp0_eq (l.session_get_type s).1 "wayland")))

-- Every session of a list is this one or is not open.
abbrev pub OthersClosed : Logind → String → List String → Type 0
OthersClosed l session [] = Unit {0}
OthersClosed l session (s ∷ sessions) =
    ((s ≡ session) ⊎ (open_now l s ≡ false)) × OthersClosed l session sessions

last_among_iff :
    (l : Logind) (session : String) (sessions : List String)
    → (last_among l session sessions ≡ true) ↔ OthersClosed l session sessions
unfolding last_among
last_among_iff l session [] = (λ h. tt, λ h. refl)
last_among_iff l session (s ∷ sessions) =
    ground (arith, eq_iff s session, last_among_iff l session sessions)

-- The session of the process can be read, with a list of the user's sessions that is not empty, and all
-- the others of them are closed.
abbrev pub IsLast : Logind → ℤ × Option String → Type 0
IsLast l pid =
    (session : String) × (sessions : List String) × (n : ℕ) × (pid ≡ (pos 0, some session))
    × (l.uid_get_sessions ≡ (pos (suc n), some sessions))
    × OthersClosed l session sessions

last_of_list_to :
    (l : Logind) (session : String) (answer : ℤ × Option (List String))
    → last_of_list l session answer ≡ true
    → (sessions : List String) × (n : ℕ) × (answer ≡ (pos (suc n), some sessions))
      × OthersClosed l session sessions
unfolding last_among
last_of_list_to l session (ret, none) h = cc
last_of_list_to l session (pos zero, some sessions) h = cc
last_of_list_to l session (negsuc n, some sessions) h = cc
last_of_list_to l session (pos (suc n), some sessions) h =
    (sessions, n, refl, (last_among_iff l session sessions).0 h)

last_of_pid_to : (l : Logind) (pid : ℤ × Option String) → last_of_pid l pid ≡ true → IsLast l pid
unfolding last_among
last_of_pid_to l (ret, none) h = cc
last_of_pid_to l (pos (suc n), some session) h = cc
last_of_pid_to l (negsuc n, some session) h = cc
last_of_pid_to l (pos zero, some session) h =
    let r = last_of_list_to l session l.uid_get_sessions h in (session, r.0, r.1, refl, r.2, r.3)

last_of_pid_from : (l : Logind) (pid : ℤ × Option String) → IsLast l pid → last_of_pid l pid ≡ true
unfolding last_among
last_of_pid_from l pid (session, sessions, n, own, all, closed) =
    rw (own, all) ((last_among_iff l session sessions).1 closed)

-- The session of the process is the last of its user exactly when it can be read, the user has a list
-- of sessions that is not empty, and each other one of the list is closing, is not graphical, or has
-- a state or a type that cannot be read.
pub is_last_session_for_user_iff :
    (l : Logind) → (is_last_session_for_user l ≡ true) ↔ IsLast l l.pid_get_session
unfolding is_last_session_for_user
is_last_session_for_user_iff l =
    (last_of_pid_to l l.pid_get_session, last_of_pid_from l l.pid_get_session)
