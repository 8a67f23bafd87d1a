-- ===== src/SessionSave/Success.antt =====
-- The session is saved: which files take the place of the old ones, and which discard commands are run
-- (mate-session/gsm-session-save.c).
use mate_session_manager.Base.{
  ℕ, ◌≡◌, refl, ap, ◌∙◌, Bool, true, false, not, ◌&&◌, ◌||◌, Option, none, some, List, [], contains,
  any, null,
}
use mate_session_manager.SessionSave.{
  File, Client, System, Disk, SaveData, save_each, clear_saved_session, rmdir, rename, Outcome,
  finish, gsm_session_save,
}
use mate_session_manager.SessionSave.Failure.{
  fails_to_save, Unlinks, files_in, save_each-error, clear_files-left, gsm_session_save-finish,
}
use mate_session_manager.SessionSave.Files.{
  files_of, commands, all_differ, clear_files-spawned, save_each-discards, save_each-dir,
}

-- The old session is cleared.
cleared :
    (sys : System) (table : Option (List ℕ)) (o : Option (List File))
    → Unlinks sys
    → rmdir (clear_saved_session sys table o).0 ≡ none
unfolding clear_saved_session
cleared sys table none u = refl
cleared sys table (some l) u =
    ap (λ (x : List File). rmdir (some x)) (clear_files-left sys table l u)

cleared-spawned :
    (sys : System) (table : List ℕ) (c : ℕ) (o : Option (List File))
    → contains c (clear_saved_session sys (some table) o).1
      ≡ contains c (commands (files_in o)) && (not (contains c table) && sys.parse c)
unfolding clear_saved_session
cleared-spawned sys table c none = refl
cleared-spawned sys table c (some l) = clear_files-spawned sys table c l

finish-saved :
    (sys : System) (s : SaveData) (d : Disk)
    → Unlinks sys
    → s.error ≡ null
    → let o = finish sys s d in
      (o.disk.saved ≡ some s.dir)
      × (o.disk.tmp ≡ none)
      × (o.error ≡ null)
      × (o.reads_freed ≡ false)
      × (o.spawned ≡ (clear_saved_session sys (some s.discards) d.saved).1)
unfolding finish
finish-saved sys s d u e =
    let k = cleared sys (some s.discards) d.saved u in
    rw e (
      ap (λ (x : Option (List File)). (rename s.dir x d).saved) k,
      ap (λ (x : Option (List File)). (rename s.dir x d).tmp) k,
      refl,
      refl,
      refl,
    )

or_false : (b : Bool) → b || false ≡ b
or_false true = refl
or_false false = refl

-- The directories can be had, files can be unlinked, no client fails to save, and the clients that save
-- themselves have different file names. Then the saved session has exactly their files, in the
-- order of the clients, the new directory is gone, there is no error, and the discard commands
-- that are run are those of the files that were there before which can be parsed and which no
-- client has now.
pub saved_session_replaced :
    (sys : System) (cs : List Client) (d : Disk) (c : ℕ)
    → sys.mkdir ≡ true
    → Unlinks sys
    → any (fails_to_save sys) cs ≡ false
    → all_differ (files_of cs) ≡ true
    → let o = gsm_session_save sys cs d in
      (o.disk.saved ≡ some (files_of cs))
      × (o.disk.tmp ≡ none)
      × (o.error ≡ null)
      × (o.reads_freed ≡ false)
      × (contains c o.spawned
          ≡ contains c (commands (files_in d.saved))
            && (not (contains c (commands (files_of cs))) && sys.parse c))
saved_session_replaced sys cs d c m u f a =
    let (e, q, k) = gsm_session_save-finish sys cs d m u in
    let start : SaveData = record { dir = []; discards = []; error = null } in
    let s = save_each sys cs start in
    let sound : s.error ≡ null = save_each-error sys cs start ∙ rw f in
    let (saved, tmp, error, reads, run) = finish-saved sys s e u sound in
    let table = save_each-discards sys cs start c f in
    let gone = cleared-spawned sys s.discards c e.saved in
    (
      ap (λ (o : Outcome). o.disk.saved) q ∙ (saved ∙ ap some (save_each-dir sys cs start f a)),
      ap (λ (o : Outcome). o.disk.tmp) q ∙ tmp,
      ap (λ (o : Outcome). o.error) q ∙ error,
      ap (λ (o : Outcome). o.reads_freed) q ∙ reads,
      ap (λ (o : Outcome). contains c o.spawned) q
          ∙ (ap (contains c) run
              ∙ (gone
                  ∙ (ap
                        (λ (l : List File).
                          contains c (commands l) && (not (contains c s.discards) && sys.parse c))
                        k
                      ∙ ap
                          (λ (b : Bool).
                            contains c (commands (files_in d.saved)) && (not b && sys.parse c))
                          (table ∙ or_false _)))),
    )
