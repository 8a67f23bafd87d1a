-- ===== src/Presence/StatusText.antt =====
-- The status text of the presence (`gsm_presence_set_status_text`), with the memory that it owns.
use Prim.Native.String.{String, len}
use mate_session_manager.Base.{
  ℕ, ◌≡◌, ◌≢◌, ◌<◌, refl, Bool, true, false, Option, none, some, if◌then◌else◌, ltb, arith,
}

-- What `priv->status_text` points to.
pub data Pointer : Type 0 where
  null freed : Pointer
  live : String → Pointer

abbrev pub max_status_text : ℕ
max_status_text = 140

-- `g_free`: NULL is ignored; a second free of the same memory is a fault.
abbrev can_free : Pointer → Bool
can_free null = true
can_free (live _) = true
can_free freed = false

unfoldable pub copy : Option String → String
copy none = ""
copy (some s) = s

unfoldable pub is_too_long : Option String → Bool
is_too_long none = false
is_too_long (some s) = ltb max_status_text (len s)

-- The new pointer, and whether the call succeeds; `none` is a fault.
unfoldable pub set_status_text : Option String → Pointer → Option (Pointer × Bool)
unfolding is_too_long copy
set_status_text text p =
    if can_free p
    then some (if is_too_long text then (freed, false) else (live (copy text), true))
    else none

-- `gsm_presence_set_status_text` frees the old text before it looks at the new one, so a text that
-- is refused as too long leaves the presence with freed memory, and the next call, whatever its
-- text, frees that memory once more.
pub refused_text_freed_twice :
    (long : String) (old : Pointer) (next : Option String)
    → max_status_text < len long
    → old ≢ freed
    → (set_status_text (some long) old ≡ some (freed, false)) × (set_status_text next freed ≡ none)
unfolding set_status_text
refused_text_freed_twice long null next h k = (ground arith, refl)
refused_text_freed_twice long (live s) next h k = (ground arith, refl)
refused_text_freed_twice long freed next h k = absurd (k refl)

-- A text that is not too long is kept, NULL as the empty text, whatever was there before.
pub short_text_kept :
    (text : Option String) (old : Pointer)
    → is_too_long text ≡ false
    → old ≢ freed
    → set_status_text text old ≡ some (live (copy text), true)
unfolding set_status_text
short_text_kept text null h k = ground arith
short_text_kept text (live s) h k = ground arith
short_text_kept text freed h k = absurd (k refl)
