-- ===== src/SessionSave/Files.antt =====
-- The files and the discard commands that are written while the session is saved
-- (mate-session/gsm-session-save.c).
use mate_session_manager.Base.{
  ℕ, ◌≡◌, refl, ap, sym, ◌∙◌, Bool, true, false, not, ◌&&◌, ◌||◌, Option, none, some, List, [], ◌∷◌,
  ◌++◌, if◌then◌else◌, ◌==◌, ==_iff, contains, keep, any, arith,
}
use mate_session_manager.SessionSave.{
  KeyFile, File, Saved, not_saved, save_failed, saved_as, Client, System, write_file, SaveData,
  with_discard, save_one_client, save_by, save_each, spawns, clear_one_client, clear_files,
}
use mate_session_manager.SessionSave.Failure.{fails_to_save, fails_by}

-- The files of the clients that save themselves, in order.
abbrev pub file_of : ℕ → Saved → List File → List File
file_of name (saved_as k) l = record { name = name; key_file = some k } ∷ l
file_of name not_saved l = l
file_of name (save_failed _) l = l

abbrev pub files_of : List Client → List File
files_of [] = []
files_of (c ∷ r) = file_of c.file_name c.save (files_of r)

-- The discard commands of some files.
abbrev pub discard_of : Option KeyFile → Option ℕ
discard_of none = none
discard_of (some k) = k.discard

abbrev pub commands : List File → List ℕ
commands [] = []
commands (f ∷ r) = with_discard (discard_of f.key_file) (commands r)

abbrev pub has_name : ℕ → List File → Bool
has_name n [] = false
has_name n (f ∷ r) = (f.name == n) || has_name n r

-- The files have different names.
abbrev pub all_differ : List File → Bool
all_differ [] = true
all_differ (f ∷ r) = not (has_name f.name r) && all_differ r

contains-append : (c : ℕ) (a b : List ℕ) → contains c (a ++ b) ≡ contains c a || contains c b
contains-append c [] b = refl
contains-append c (x ∷ a) b = ground (arith, contains-append c a b)

contains-with_discard :
    (c : ℕ) (o : Option ℕ) (l : List ℕ)
    → contains c (with_discard o l) ≡ contains c (with_discard o []) || contains c l
contains-with_discard c none l = refl
contains-with_discard c (some d) l = ground arith

same_text : (d c : ℕ) (f : ℕ → Bool) → (d == c) ≡ true → f d ≡ f c
same_text d c f h = ap f ((==_iff d c).0 h)

spawns_lem :
    (sys : System) (table : List ℕ) (c : ℕ) (o : Option ℕ)
    → contains c (spawns sys (some table) o)
      ≡ contains c (with_discard o []) && (not (contains c table) && sys.parse c)
spawns_lem sys table c none = refl
spawns_lem sys table c (some d) =
    let t = same_text d c (λ (x : ℕ). contains x table) in
    let p = same_text d c (λ (x : ℕ). sys.parse x) in ground arith

clear_one_client-spawned :
    (sys : System) (table : List ℕ) (c : ℕ) (n : ℕ) (o : Option KeyFile)
    → contains c (clear_one_client sys (some table) (record { name = n; key_file = o }))
      ≡ contains c (with_discard (discard_of o) []) && (not (contains c table) && sys.parse c)
unfolding clear_one_client
clear_one_client-spawned sys table c n none = refl
clear_one_client-spawned sys table c n (some k) = spawns_lem sys table c k.discard

pub clear_files-spawned :
    (sys : System) (table : List ℕ) (c : ℕ) (l : List File)
    → contains c (clear_files sys (some table) l).1
      ≡ contains c (commands l) && (not (contains c table) && sys.parse c)
unfolding clear_files
clear_files-spawned sys table c [] = refl
clear_files-spawned sys table c (f ∷ r) =
    let one = clear_one_client-spawned sys table c f.name f.key_file in
    let rest = clear_files-spawned sys table c r in
    let a =
      contains-append c (clear_one_client sys (some table) f) (clear_files sys (some table) r).1 in
    let b = contains-with_discard c (discard_of f.key_file) (commands r) in ground arith

pub save_each-discards :
    (sys : System) (cs : List Client) (s : SaveData) (c : ℕ)
    → any (fails_to_save sys) cs ≡ false
    → contains c (save_each sys cs s).discards
      ≡ contains c (commands (files_of cs)) || contains c s.discards
unfolding save_each save_one_client
save_each-discards sys [] s c h = refl
save_each-discards sys (d ∷ r) s c h =
    by d.file_name (sys.write d.file_name) d.save (ground arith)
      (save_each-discards sys r _ c (ground arith))
  where
    by :
        (n : ℕ) (w : Option ℕ) (v : Saved)
        → fails_by w v ≡ false
        → contains c (save_each sys r (save_by n w v s).0).discards
          ≡ contains c (commands (files_of r)) || contains c (save_by n w v s).0.discards
        → contains c
            (if (save_by n w v s).1
              then (save_by n w v s).0
              else save_each sys r (save_by n w v s).0).discards
          ≡ contains c (commands (file_of n v (files_of r))) || contains c s.discards
    by n w not_saved e h = h
    by n w (save_failed x) e h = ground arith
    by n none (saved_as k) e h =
        let a = contains-with_discard c k.discard s.discards in
        let b = contains-with_discard c k.discard (commands (files_of r)) in ground arith
    by n (some x) (saved_as k) e h = ground arith

has_name-append : (n : ℕ) (a b : List File) → has_name n (a ++ b) ≡ has_name n a || has_name n b
has_name-append n [] b = refl
has_name-append n (f ∷ a) b = ground (arith, has_name-append n a b)

-- A name that is not there yet.
all_differ-fresh :
    (a : List File) (f : File) (b : List File)
    → all_differ (a ++ (f ∷ b)) ≡ true
    → has_name f.name a ≡ false
all_differ-fresh [] f b h = refl
all_differ-fresh (g ∷ a) f b h =
    let ih = all_differ-fresh a f b in let s = has_name-append g.name a (f ∷ b) in ground arith

kept_all :
    (n : ℕ) (a : List File) → has_name n a ≡ false → keep (λ (f : File). not (f.name == n)) a ≡ a
kept_all n [] h = refl
kept_all n (g ∷ a) h = let ih = kept_all n a in ground arith

append_assoc : (a : List File) (f : File) (b : List File) → (a ++ (f ∷ [])) ++ b ≡ a ++ (f ∷ b)
append_assoc [] f b = refl
append_assoc (g ∷ a) f b = ap (◌∷◌ g) (append_assoc a f b)

append_nil : (a : List File) → a ++ [] ≡ a
append_nil [] = refl
append_nil (g ∷ a) = ap (◌∷◌ g) (append_nil a)

write_file-append :
    (n : ℕ) (k : KeyFile) (a b : List File)
    → all_differ (a ++ (record { name = n; key_file = some k } ∷ b)) ≡ true
    → write_file n k a ++ b ≡ a ++ (record { name = n; key_file = some k } ∷ b)
write_file-append n k a b h =
    ap (λ (x : List File). (x ++ (record { name = n; key_file = some k } ∷ [])) ++ b)
      (kept_all n a (all_differ-fresh a (record { name = n; key_file = some k }) b h))
    ∙ append_assoc a (record { name = n; key_file = some k }) b

pub save_each-dir :
    (sys : System) (cs : List Client) (s : SaveData)
    → any (fails_to_save sys) cs ≡ false
    → all_differ (s.dir ++ files_of cs) ≡ true
    → (save_each sys cs s).dir ≡ s.dir ++ files_of cs
unfolding save_each save_one_client
save_each-dir sys [] s h d = sym (append_nil s.dir)
save_each-dir sys (c ∷ r) s h d =
    by c.file_name (sys.write c.file_name) c.save (ground arith) d
      (λ x. save_each-dir sys r _ (ground arith) x)
  where
    by :
        (n : ℕ) (w : Option ℕ) (v : Saved)
        → fails_by w v ≡ false
        → all_differ (s.dir ++ file_of n v (files_of r)) ≡ true
        → (all_differ ((save_by n w v s).0.dir ++ files_of r) ≡ true
            → (save_each sys r (save_by n w v s).0).dir ≡ (save_by n w v s).0.dir ++ files_of r)
        → (if (save_by n w v s).1
            then (save_by n w v s).0
            else save_each sys r (save_by n w v s).0).dir
          ≡ s.dir ++ file_of n v (files_of r)
    by n w not_saved e d h = h d
    by n w (save_failed x) e d h = ground arith
    by n none (saved_as k) e d h =
        let a = write_file-append n k s.dir (files_of r) d in h (ap all_differ a ∙ d) ∙ a
    by n (some x) (saved_as k) e d h = ground arith
