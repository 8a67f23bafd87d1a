-- ===== src/Preferences/AppManager/Deleting.antt =====
-- A file of an application is deleted (capplet/gsp-app-manager.c).
use mate_session_manager.Base.{
  ℕ, suc, ◌-◌, ◌^◌, ◌<◌, ◌≡◌, ◌≢◌, ◌↔◌, inl, inr, Bool, true, false, not, ◌&&◌, ◌||◌, Option, none,
  some, List, [], ◌∷◌, ltb, is_some, arith, Option-cases,
}
use mate_session_manager.Preferences.{KeyFile, World, App}
use mate_session_manager.Preferences.Reload.{ignored, reload, reload_from, load, can_launch}
use mate_session_manager.Preferences.AppManager.{
  Files, AppManager, returned, failed, find_app, put_app, get_dir_index, get_dir, reload_at, before,
  is_at, handle_delete, xdg_dir_monitor, file_deleted, reload_from_dir,
}

-- Going back to the position in the system does not fail: it is not above itself.
reload_at-ne-failed :
    (w : World) (f : Files) (dir name q : ℕ) (a : App) (m : AppManager)
    → a.xdg_system_position ≡ some q
    → reload_at w f dir name q a m ≢ failed
unfolding reload_at reload reload_from
reload_at-ne-failed w f dir name q a m e h = elim (Option-cases (f.read dir name)) [
  | inl n ↦ ground arith
  | inr (k, s) ↦ ground arith
]

go_to_system-ne-failed :
    (w : World) (f : Files) (name q : ℕ) (a : App) (m : AppManager) (dir : Option ℕ)
    → a.xdg_system_position ≡ some q
    → reload_from_dir w f name q a m dir ≢ failed
go_to_system-ne-failed w f name q a m none e h = cc
go_to_system-ne-failed w f name q a m (some d) e h = reload_at-ne-failed w f d name q a m e h

-- Whether a deletion at an index fails, for an application at a position with a position in the system.
abbrev pub fails_at : ℕ → ℕ → Option ℕ → Bool
fails_at index position system =
    not (before system index)
    && ((ltb 0 index && ltb index position) || (ltb position index && not (is_at system index)))

-- A deletion makes the program abort exactly in two cases, both with an application whose position in the
-- system is not before that of the deleted file: the file stands before the application's own and
-- is not the user's, or it stands between the application's own and that of the system.
pub handle_delete_fails_iff :
    (w : World) (f : Files) (name index : ℕ) (a : App) (m : AppManager)
    → (handle_delete w f name index a m ≡ failed)
      ↔ (fails_at index a.xdg_position a.xdg_system_position ≡ true)
unfolding handle_delete
handle_delete_fails_iff w f name index a m = elim (Option-cases a.xdg_system_position) [
  | inl n ↦ rw n (ground arith)
  | inr (q, s) ↦ rw s (ground (arith, go_to_system-ne-failed w f name q a m (get_dir q m.dirs) s))
]

find_app-put_app :
    (name : ℕ) (a b : App) (l : List (ℕ × App))
    → find_app name l ≡ some b
    → find_app name (put_app name a l) ≡ some a
unfolding find_app
find_app-put_app name a b [] h = cc
find_app-put_app name a b ((n, c) ∷ l) h = ground (arith, find_app-put_app name a b l)

-- The file that an application is read from is deleted, and the system has another, at a position behind
-- it, in a directory that is known, which can be loaded and is for this desktop. If no save is
-- waiting, the application goes on with the data of that file.
pub delete_falls_back :
    (w : World) (f : Files) (name q d : ℕ) (k : KeyFile) (a : App) (m : AppManager)
    → a.xdg_system_position ≡ some q
    → a.xdg_position < q
    → q < 2 ^ 32 - 1
    → get_dir q m.dirs ≡ some d
    → f.read d name ≡ some k
    → can_launch w k ≡ true
    → a.save_timeout ≡ false
    → handle_delete w f name a.xdg_position a m
      ≡ returned (record m {
        apps = put_app name (load w k q (record a { xdg_position = 2 ^ 32 - 1 })) m.apps;
      })
unfolding handle_delete reload_at reload reload_from
delete_falls_back w f name q d k a m s lt max g r can quiet = ground arith

-- The application has no position any more, and the system's is kept.
abbrev stranded : ℕ → App → App
stranded p a = record a { xdg_position = 2 ^ 32 - 1; xdg_system_position = some p }

reload-stranded :
    (w : World) (file : Option KeyFile) (q : ℕ) (a : App)
    → a.xdg_system_position ≡ some (suc q)
    → suc q < 2 ^ 32 - 1
    → a.save_timeout || not (is_some file) ≡ true
    → reload w file (suc q) (record a { xdg_position = 2 ^ 32 - 1 }) ≡ ignored (stranded (suc q) a)
unfolding reload reload_from
reload-stranded w none q a sys max why = ground arith
reload-stranded w (some k) q a sys max why = ground arith

first_deletion :
    (w : World) (f : Files) (name q d : ℕ) (a : App) (m : AppManager)
    → a.xdg_position ≡ 0
    → a.xdg_system_position ≡ some (suc q)
    → suc q < 2 ^ 32 - 1
    → get_dir (suc q) m.dirs ≡ some d
    → a.save_timeout || not (is_some (f.read d name)) ≡ true
    → handle_delete w f name 0 a m
      ≡ returned (record m { apps = put_app name (stranded (suc q) a) m.apps })
unfolding handle_delete reload_at
first_deletion w f name q d a m pos sys max sys_d why =
    ground (arith, reload-stranded w (f.read d name) q a sys max why)

-- An application is read from the user's file, with another of the system behind it, and either a save of
-- it is waiting or that other file cannot be loaded. The user's file is deleted, and then the other
-- one: the program aborts.
pub second_deletion_aborts :
    (w : World) (f : Files) (name user_dir q d : ℕ) (a : App) (m : AppManager)
    → f.is_desktop name ≡ true
    → find_app name m.apps ≡ some a
    → a.xdg_position ≡ 0
    → a.xdg_system_position ≡ some (suc q)
    → suc q < 2 ^ 32 - 1
    → get_dir_index user_dir m.dirs ≡ some 0
    → get_dir_index d m.dirs ≡ some (suc q)
    → get_dir (suc q) m.dirs ≡ some d
    → a.save_timeout || not (is_some (f.read d name)) ≡ true
    → (n : AppManager) × (xdg_dir_monitor w f file_deleted user_dir name m ≡ returned n)
      × (xdg_dir_monitor w f file_deleted d name n ≡ failed)
unfolding xdg_dir_monitor
second_deletion_aborts w f name user_dir q d a m desk known pos sys max user_i sys_i sys_d why = (
  record m { apps = put_app name (stranded (suc q) a) m.apps },
  rw (desk, user_i, known) (first_deletion w f name q d a m pos sys max sys_d why),
  rw (desk, sys_i, find_app-put_app name (stranded (suc q) a) a m.apps known)
      ((handle_delete_fails_iff w f name (suc q) (stranded (suc q) a)
          (record m { apps = put_app name (stranded (suc q) a) m.apps })).1
        (ground arith)),
)
