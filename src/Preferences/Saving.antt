-- ===== src/Preferences/Saving.antt =====
-- What is on the disk after an edited file was saved (capplet/gsp-app.c).
use mathlib.Core.Path.{subst}
use mate_session_manager.Base.{
  ℕ, ◌≡◌, refl, ap, sym, ◌∙◌, Bool, true, false, ◌&&◌, ◌||◌, Option, none, some, List,
  if◌then◌else◌, ◌==◌, ltb, arith,
}
use mate_session_manager.Preferences.{
  KeyFile, FilePath, user, system, Disk, World, App, read, path_at, equal_system, remove_file,
  write_file, base_file, base_path, masked, save_file, use_system, save_by, save,
}
use mate_session_manager.Preferences.Reload.{load, empty, reload, Outcome, ignored, lowest}
use mate_session_manager.Preferences.Edits.{
  IsBased, Shows, masked-Shows, Edit, edit_all, IsPlaced, edit_all-IsPlaced,
}

equal_system-Shows :
    (a : App) (o : Option KeyFile)
    → equal_system o a ≡ true
    → (k : KeyFile) × (o ≡ some k) × Shows a k
unfolding equal_system
equal_system-Shows a none h = ground arith
equal_system-Shows a (some k) h =
    (k, refl, (ground arith, ground arith, ground arith, ground arith, ground arith))

-- What is there after a save.
abbrev IsSaved : App → Disk × App → Type 0
IsSaved a (e, c) = (j : KeyFile) × (read e c.path ≡ some j) × Shows a j × Shows c j

read-write : (p : FilePath) (k : KeyFile) (d : Disk) → read (write_file p k d) p ≡ some k
read-write user k d = refl
read-write (system n) k d = ground arith

either-IsSaved :
    (t : Bool) (a : App) (x y : Disk × App)
    → (t ≡ true → IsSaved a x)
    → (t ≡ false → IsSaved a y)
    → IsSaved a (if t then x else y)
either-IsSaved true a x y p q = p refl
either-IsSaved false a x y p q = q refl

save_file-IsSaved :
    (w : World) (d : Disk) (a : App) (k : KeyFile)
    → read d (base_path a.old_system_path a.path) ≡ some k
    → IsBased a k
    → w.writes ≡ true
    → IsSaved a (save_file w d a)
unfolding save_file
save_file-IsSaved w d a k r q t =
    let o = read d (base_path a.old_system_path a.path) in
    let j = masked a (base_file w o) in
    let shown : Shows a j =
      subst (λ (x : Option KeyFile). Shows a (masked a (base_file w x))) (sym r)
        (masked-Shows a k q) in
    either-IsSaved w.writes a _ _ (λ e. (j, read-write a.path j d, shown, shown))
      (λ e. impossible w.writes t e)
  where
    impossible :
        (b : Bool)
        → b ≡ true
        → b ≡ false
        → IsSaved a (d, record a { save_timeout = false; pending = false })
    impossible b x y = ground arith

use_system-IsSaved :
    (p : ℕ) (d : Disk) (a : App)
    → a.path ≡ user
    → equal_system (d.system_files p) a ≡ true
    → IsSaved a (use_system p d a)
unfolding use_system
use_system-IsSaved p d a u h =
    let (k, e, s) = equal_system-Shows a (d.system_files p) h in
    (k, ap (λ (x : FilePath). read (remove_file x d) (system p)) u ∙ e, s, s)

save_by-IsSaved :
    (w : World) (d : Disk) (o : Option ℕ) (a : App) (k : KeyFile)
    → a.path ≡ user
    → read d (base_path a.old_system_path a.path) ≡ some k
    → IsBased a k
    → w.writes ≡ true
    → IsSaved a (save_by w d o a)
unfolding save_by
save_by-IsSaved w d none a k u r q t = save_file-IsSaved w d a k r q t
save_by-IsSaved w d (some p) a k u r q t =
    either-IsSaved (equal_system (d.system_files p) a) a _ _ (λ h. use_system-IsSaved p d a u h)
      (λ h. save_file-IsSaved w d a k r q t)

-- A file is loaded, from the user's directory or from a system directory, whose name is not blank. After
-- any edits in the dialog, if a save waits then and the file can be written, the file that stands at
-- the application's path when the timer has fired has the values that the dialog shows, and the
-- dialog shows the values that it showed before the save.
pub edited_is_saved :
    (w : World) (d : Disk) (k : KeyFile) (position : ℕ) (es : List Edit)
    → read d (path_at position) ≡ some k
    → w.is_blank k.name ≡ false
    → w.writes ≡ true
    → let a = edit_all es (load w k position empty) in
      a.pending ≡ true
      → let (e, c) = save w d a in (j : KeyFile) × (read e c.path ≡ some j) × Shows a j × Shows c j
unfolding save
edited_is_saved w d k position es r b t p =
    let a = edit_all es (load w k position empty) in
    let first : IsPlaced d k (load w k position empty) =
      (refl, r, λ e. wrong e, (λ e. refl, λ e. sym (rw b), λ e. refl, λ e. refl, λ e. refl)) in
    let (at, base, still, based) = edit_all-IsPlaced es d k (load w k position empty) first in
    save_by-IsSaved w d a.xdg_system_position a k (at ∙ ap path_at (still p)) base based t
  where
    wrong : false ≡ true → position ≡ 0
    wrong e = ground arith

-- No save waits, and a file that appears is ignored.
abbrev IsBlocked : World → ℕ → Option KeyFile → App → Type 0
IsBlocked w position file c =
    (c.pending ≡ false)
    × (reload w file position c
        ≡ ignored (record c { xdg_system_position = lowest position c.xdg_system_position }))

save-use_system :
    (w : World) (d : Disk) (a : App) (p : ℕ)
    → a.xdg_system_position ≡ some p
    → equal_system (d.system_files p) a ≡ true
    → save w d a ≡ use_system p d a
unfolding save save_by
save-use_system w d a p s e = ap (λ (o : Option ℕ). save_by w d o a) s ∙ rw e

reload-blocked :
    (w : World) (position : ℕ) (file : Option KeyFile) (c : App)
    → c.save_timeout ≡ true
    → c.skip_next_monitor_event ≡ false
    → reload w file position c
      ≡ ignored (record c { xdg_system_position = lowest position c.xdg_system_position })
unfolding reload
reload-blocked w position file c t n =
    blocked (c.xdg_position == position) c.skip_next_monitor_event (ltb c.xdg_position position)
      c.save_timeout _ _ _ n t
  where
    blocked :
        (x y u v : Bool) (a b e : Outcome)
        → y ≡ false
        → v ≡ true
        → (if x && y then a else if u || v then b else e) ≡ b
    blocked x y u v a b e n t = ground arith

-- The file of an application is like that of the system, so that the one in the user's directory is not
-- kept. The timer's field is left as it was: any file that appears later for the application, at any
-- position, is ignored, though no save waits any more.
pub stale_timeout_ignores :
    (w : World) (d : Disk) (a : App) (p position : ℕ) (file : Option KeyFile)
    → a.xdg_system_position ≡ some p
    → equal_system (d.system_files p) a ≡ true
    → a.save_timeout ≡ true
    → a.skip_next_monitor_event ≡ false
    → let c = (save w d a).1 in
      (c.pending ≡ false)
      × (reload w file position c
          ≡ ignored (record c { xdg_system_position = lowest position c.xdg_system_position }))
unfolding use_system
stale_timeout_ignores w d a p position file s e t n =
    subst (λ (r : Disk × App). IsBlocked w position file r.1) (sym (save-use_system w d a p s e))
      (refl, reload-blocked w position file (use_system p d a).1 t n)
