-- ===== src/Examples/Presences.antt =====
-- The presence of mate-session/gsm-presence.c at concrete states.
use mate_session_manager.Base.{◌≡◌, true, false, none, some, arith}
use mate_session_manager.Presence.{Presence, new}
use mate_session_manager.Presence.Idle.{
  IsWatching, idle_enabled_set, handle, new-IsWatching, handle-IsWatching,
}
use mate_session_manager.Presence.StatusText.{
  freed, live, set_status_text, refused_text_freed_twice,
}

handle-IsWatching_example : IsWatching (handle (idle_enabled_set true) (new true))
handle-IsWatching_example =
    handle-IsWatching (idle_enabled_set true) (new true) (new-IsWatching true).0

abbrev busy : Presence
busy = record (new true) { status = 2; saved_status = 0 }

-- A text of 160 characters.
abbrev long_text : Prim.Native.String.String
long_text =
    "Gone for lunch, back at two o'clock, or at three if the soup is as good as the one of last week, which took the whole of the table by surprise, as all agreed then."

refused_text_freed_twice_example :
    (set_status_text (some long_text) (live "Here") ≡ some (freed, false))
    × (set_status_text (some "Back") freed ≡ none)
refused_text_freed_twice_example =
    refused_text_freed_twice long_text (live "Here") (some "Back") (omega arith) (λ h. cc)
