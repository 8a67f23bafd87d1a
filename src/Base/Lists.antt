-- ===== src/Base/Lists.antt =====
-- Lists over the native numbers: length, membership as a test, and GLib's `g_slist_remove`.
use Prim.Native.Nat.{ℕ, suc}
use mathlib.Core.Bool.{Bool, true, false, ◌||◌}
use mathlib.Core.List.{List, [], ◌∷◌}
use mate_session_manager.Base.Tests.{if◌then◌else◌, ◌==◌}

module _ {ℓ} {A : Type ℓ} where
  abbrev pub length : List A → ℕ
  length [] = 0
  length (x ∷ xs) = suc (length xs)

  abbrev pub is_nil : List A → Bool
  is_nil [] = true
  is_nil (_ ∷ _) = false

  abbrev pub any : (A → Bool) → List A → Bool
  any p [] = false
  any p (x ∷ xs) = p x || any p xs

  -- The elements that pass a test, in order.
  abbrev pub keep : (A → Bool) → List A → List A
  keep p [] = []
  keep p (x ∷ xs) = let rest = keep p xs in if p x then x ∷ rest else rest

abbrev pub contains : ℕ → List ℕ → Bool
contains a [] = false
contains a (x ∷ xs) = (x == a) || contains a xs

-- `g_slist_remove` takes the first occurrence out.
unfoldable pub slist_remove : ℕ → List ℕ → List ℕ
slist_remove a [] = []
slist_remove a (x ∷ xs) = let rest = slist_remove a xs in if x == a then xs else x ∷ rest

-- All occurrences, as `g_signal_handlers_disconnect_by_func` does.
unfoldable pub remove_all : ℕ → List ℕ → List ℕ
remove_all a [] = []
remove_all a (x ∷ xs) = let rest = remove_all a xs in if x == a then rest else x ∷ rest
