-- ===== src/Preferences/Edits.antt =====
-- Edits of a file in the dialog, and what a save starts from (capplet/gsp-app.c).
use mate_session_manager.Base.{
  bool_eq, ℕ, ◌≡◌, ap, sym, ◌∙◌, Bool, true, false, not, ◌&&◌, ◌||◌, some, List, [], ◌∷◌,
  if◌then◌else◌, ◌==◌, arith,
}
use mate_session_manager.Preferences.{
  KeyFile, user, Disk, App, read, path_at, base_path, masked, queue_save, set_hidden, update,
}

-- What is not written yet is in the file that the save starts from.
abbrev pub IsBased : App → KeyFile → Type 0
IsBased a k =
    (a.save_hidden ≡ false → k.hidden ≡ a.hidden)
    × (a.save_name ≡ false → k.name ≡ a.name)
    × (a.save_exec ≡ false → k.exec ≡ a.exec)
    × (a.save_comment ≡ false → k.comment ≡ a.comment)
    × (a.save_delay ≡ false → k.delay ≡ a.delay)

-- A file has what the application shows.
abbrev pub Shows : App → KeyFile → Type 0
Shows a k =
    (k.hidden ≡ a.hidden)
    × (k.name ≡ a.name)
    × (k.exec ≡ a.exec)
    × (k.comment ≡ a.comment)
    × (k.delay ≡ a.delay)

pub masked-Shows : (a : App) (k : KeyFile) → IsBased a k → Shows a (masked a k)
unfolding masked
masked-Shows a k (h, n, e, c, d) =
    (ground arith, ground arith, ground arith, ground arith, ground arith)

-- An edit in the dialog.
pub data Edit : Type 0 where
  hide : Bool → Edit
  change : ℕ → ℕ → ℕ → ℕ → Edit

abbrev pub edit : Edit → App → App
edit (hide b) a = set_hidden b a
edit (change name comment exec delay) a = update name comment exec delay a

unfoldable pub edit_all : List Edit → App → App
edit_all [] a = a
edit_all (e ∷ r) a = edit_all r (edit e a)

-- The application is based on a file of the disk, and a save waits only for one that is in the user's
-- directory.
abbrev pub IsPlaced : Disk → KeyFile → App → Type 0
IsPlaced d k a =
    (a.path ≡ path_at a.xdg_position)
    × (read d (base_path a.old_system_path a.path) ≡ some k)
    × (a.pending ≡ true → a.xdg_position ≡ 0)
    × IsBased a k

queue_save-base :
    (a : App)
    → base_path (queue_save a).old_system_path (queue_save a).path
      ≡ base_path a.old_system_path a.path
unfolding queue_save
queue_save-base a = ground arith

queue_save-at :
    (a : App)
    → a.path ≡ path_at a.xdg_position
    → ((queue_save a).path ≡ user) × ((queue_save a).xdg_position ≡ 0)
unfolding queue_save
queue_save-at a e = (ground arith, ground arith)

queue_save-mask :
    (a : App)
    → let b = queue_save a in
      (b.save_hidden ≡ a.save_hidden)
      × (b.save_name ≡ a.save_name)
      × (b.save_exec ≡ a.save_exec)
      × (b.save_comment ≡ a.save_comment)
      × (b.save_delay ≡ a.save_delay)
      × (b.hidden ≡ a.hidden)
      × (b.name ≡ a.name)
      × (b.exec ≡ a.exec)
      × (b.comment ≡ a.comment)
      × (b.delay ≡ a.delay)
unfolding queue_save
queue_save-mask a = (
  ground arith,
  ground arith,
  ground arith,
  ground arith,
  ground arith,
  ground arith,
  ground arith,
  ground arith,
  ground arith,
  ground arith,
)

queue_save-IsPlaced :
    (d : Disk) (k : KeyFile) (a : App)
    → a.path ≡ path_at a.xdg_position
    → read d (base_path a.old_system_path a.path) ≡ some k
    → IsBased a k
    → IsPlaced d k (queue_save a)
queue_save-IsPlaced d k a e r (h, n, x, c, l) =
    let (q, z) = queue_save-at a e in
    let (h1, n1, x1, c1, l1, h2, n2, x2, c2, l2) = queue_save-mask a in
    (
      q ∙ ap path_at (sym z),
      ap (read d) (queue_save-base a) ∙ r,
      λ p. z,
      (
        λ y. h (sym h1 ∙ y) ∙ sym h2,
        λ y. n (sym n1 ∙ y) ∙ sym n2,
        λ y. x (sym x1 ∙ y) ∙ sym x2,
        λ y. c (sym c1 ∙ y) ∙ sym c2,
        λ y. l (sym l1 ∙ y) ∙ sym l2,
      ),
    )

either_way : (t : Bool) (P : App → Type 0) (x y : App) → P x → P y → P (if t then x else y)
either_way true P x y p q = p
either_way false P x y p q = q

unmasked :
    (bit : Bool) (new old file : ℕ)
    → (bit ≡ false → file ≡ old)
    → bit || not (new == old) ≡ false
    → file ≡ new
unmasked bit new old file h e = ground arith

set_hidden-IsPlaced :
    (b : Bool) (d : Disk) (k : KeyFile) (a : App) → IsPlaced d k a → IsPlaced d k (set_hidden b a)
unfolding set_hidden
set_hidden-IsPlaced b d k a (e, r, p, (h, n, x, c, l)) =
    either_way (bool_eq b a.hidden) (IsPlaced d k) a _ (e, r, p, (h, n, x, c, l))
      (queue_save-IsPlaced d k (record a { hidden = b; save_hidden = true }) e r
        (λ y. cc, n, x, c, l))

update-IsPlaced :
    (n c x l : ℕ) (d : Disk) (k : KeyFile) (a : App)
    → IsPlaced d k a
    → IsPlaced d k (update n c x l a)
unfolding update
update-IsPlaced name comment exec delay d k a (e, r, p, (h, n, x, c, l)) =
    either_way
      ((name == a.name) && ((comment == a.comment) && ((exec == a.exec) && (delay == a.delay))))
      (IsPlaced d k) a _ (e, r, p, (h, n, x, c, l))
      (queue_save-IsPlaced d k
        (record a {
          name = name;
          comment = comment;
          exec = exec;
          delay = delay;
          save_name = a.save_name || not (name == a.name);
          save_comment = a.save_comment || not (comment == a.comment);
          save_exec = a.save_exec || not (exec == a.exec);
          save_delay = a.save_delay || not (delay == a.delay);
        })
        e r
        (
          h,
          unmasked a.save_name name a.name k.name n,
          unmasked a.save_exec exec a.exec k.exec x,
          unmasked a.save_comment comment a.comment k.comment c,
          unmasked a.save_delay delay a.delay k.delay l,
        ))

pub edit_all-IsPlaced :
    (es : List Edit) (d : Disk) (k : KeyFile) (a : App)
    → IsPlaced d k a
    → IsPlaced d k (edit_all es a)
unfolding edit_all
edit_all-IsPlaced [] d k a q = q
edit_all-IsPlaced (hide b ∷ r) d k a q =
    edit_all-IsPlaced r d k (set_hidden b a) (set_hidden-IsPlaced b d k a q)
edit_all-IsPlaced (change n c x l ∷ r) d k a q =
    edit_all-IsPlaced r d k (update n c x l a) (update-IsPlaced n c x l d k a q)
