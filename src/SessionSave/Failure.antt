-- ===== src/SessionSave/Failure.antt =====
-- A client that fails while the session is saved (mate-session/gsm-session-save.c), with what the
-- proofs of both outcomes share.
use mate_session_manager.Base.{
  ℕ, ◌≡◌, refl, ap, ◌∙◌, Bool, true, false, not, Option, none, some, List, [], ◌∷◌, if◌then◌else◌,
  keep, any, is_some, null, freed, arith,
}
use mate_session_manager.SessionSave.{
  File, Saved, not_saved, save_failed, saved_as, Client, System, Disk, ensure_dir_exists,
  get_saved_session_dir, get_empty_tmp_session_dir, SaveData, save_one_client, save_by, save_each,
  clear_files, clear_saved_session, Outcome, finish, emptied, save_to, save_in, gsm_session_save,
}

-- Whether a client fails to save: it reports an error, or its file cannot be written.
abbrev pub fails_by : Option ℕ → Saved → Bool
fails_by written not_saved = false
fails_by written (save_failed _) = true
fails_by written (saved_as _) = is_some written

abbrev pub fails_to_save : System → Client → Bool
fails_to_save sys c = fails_by (sys.write c.file_name) c.save

-- Every file can be unlinked.
abbrev pub Unlinks : System → Type 0
Unlinks sys = (n : ℕ) → sys.unlink n ≡ true

-- The directories can be made, or are there.
abbrev pub files_in : Option (List File) → List File
files_in none = []
files_in (some l) = l

save_by-fails :
    (name : ℕ) (w : Option ℕ) (v : Saved) (s : SaveData)
    → ((save_by name w v s).1 ≡ fails_by w v)
      × ((save_by name w v s).0.error ≡ (if fails_by w v then freed else s.error))
save_by-fails name w not_saved s = (refl, refl)
save_by-fails name w (save_failed e) s = (refl, refl)
save_by-fails name none (saved_as k) s = (refl, refl)
save_by-fails name (some e) (saved_as k) s = (refl, refl)

pub save_each-error :
    (sys : System) (cs : List Client) (s : SaveData)
    → (save_each sys cs s).error ≡ (if any (fails_to_save sys) cs then freed else s.error)
unfolding save_each save_one_client
save_each-error sys [] s = refl
save_each-error sys (c ∷ r) s =
    let (f, e) = save_by-fails c.file_name (sys.write c.file_name) c.save s in
    let ih = save_each-error sys r (save_one_client sys c s).0 in ground arith

pub clear_files-left :
    (sys : System) (table : Option (List ℕ)) (l : List File)
    → Unlinks sys
    → (clear_files sys table l).0 ≡ []
unfolding clear_files
clear_files-left sys table [] u = refl
clear_files-left sys table (f ∷ r) u = rw u (clear_files-left sys table r u)

pub none_kept :
    (sys : System) (l : List File)
    → Unlinks sys
    → keep (λ (f : File). not (sys.unlink f.name)) l ≡ []
none_kept sys [] u = refl
none_kept sys (f ∷ r) u = rw u (none_kept sys r u)

ensured :
    (sys : System) (o : Option (List File))
    → sys.mkdir ≡ true
    → ensure_dir_exists sys o ≡ some (files_in o)
unfolding ensure_dir_exists
ensured sys none m = rw m
ensured sys (some l) m = refl

found_dir :
    (sys : System) (d : Disk)
    → sys.mkdir ≡ true
    → ((get_saved_session_dir sys d).saved_session_dir ≡ true)
      × (files_in (get_saved_session_dir sys d).saved ≡ files_in d.saved)
unfolding get_saved_session_dir
found_dir sys d m = let e = ensured sys d.saved m in (ground arith, ground arith)

empty_dir :
    (sys : System) (d : Disk)
    → sys.mkdir ≡ true
    → Unlinks sys
    → (get_empty_tmp_session_dir sys d).tmp ≡ some []
unfolding get_empty_tmp_session_dir
empty_dir sys d m u =
    ap (emptied sys) (ensured sys d.tmp m) ∙ ap some (none_kept sys (files_in d.tmp) u)

saved_kept :
    (sys : System) (d : Disk) → files_in (get_empty_tmp_session_dir sys d).saved ≡ files_in d.saved
unfolding get_empty_tmp_session_dir
saved_kept sys d = refl

-- What is saved when the directories can be had.
pub gsm_session_save-finish :
    (sys : System) (cs : List Client) (d : Disk)
    → sys.mkdir ≡ true
    → Unlinks sys
    → (e : Disk) × (gsm_session_save sys cs d
        ≡ finish sys (save_each sys cs (record { dir = []; discards = []; error = null })) e)
      × (files_in e.saved ≡ files_in d.saved)
unfolding gsm_session_save
gsm_session_save-finish sys cs d m u =
    let e = get_saved_session_dir sys d in
    let (f, k) = found_dir sys d m in
    let t = get_empty_tmp_session_dir sys e in
    (t, ap (save_in sys cs e) f ∙ ap (save_to sys cs t) (empty_dir sys e m u), saved_kept sys e ∙ k)

finish-freed :
    (sys : System) (s : SaveData) (d : Disk)
    → Unlinks sys
    → s.error ≡ freed
    → let o = finish sys s d in
      (o.disk.saved ≡ d.saved) × (o.disk.tmp ≡ none) × (o.error ≡ freed) × (o.reads_freed ≡ true)
unfolding finish clear_saved_session
finish-freed sys s d u e = rw e (refl, rw (clear_files-left sys none s.dir u), refl, refl)

-- The directories can be had, files can be unlinked, and some client fails to save. Then the saved
-- session has the files that it had, the new directory is gone, and the error, which is given to
-- the caller, was freed and is read all the same.
pub failed_save_keeps_session :
    (sys : System) (cs : List Client) (d : Disk)
    → sys.mkdir ≡ true
    → Unlinks sys
    → any (fails_to_save sys) cs ≡ true
    → let o = gsm_session_save sys cs d in
      (files_in o.disk.saved ≡ files_in d.saved)
      × (o.disk.tmp ≡ none)
      × (o.error ≡ freed)
      × (o.reads_freed ≡ true)
failed_save_keeps_session sys cs d m u f =
    let (e, q, k) = gsm_session_save-finish sys cs d m u in
    let s = save_each sys cs (record { dir = []; discards = []; error = null }) in
    let broken : s.error ≡ freed = save_each-error sys cs _ ∙ rw f in
    let (saved, tmp, error, reads) = finish-freed sys s e u broken in
    (
      ap (λ (o : Outcome). files_in o.disk.saved) q ∙ (ap files_in saved ∙ k),
      ap (λ (o : Outcome). o.disk.tmp) q ∙ tmp,
      ap (λ (o : Outcome). o.error) q ∙ error,
      ap (λ (o : Outcome). o.reads_freed) q ∙ reads,
    )
