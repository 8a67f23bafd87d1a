-- ===== src/Store.antt =====
-- mate-session/gsm-store.c: a hash table of objects by identifier, which announces each change.
-- The table is the list of its entries in the order in which it visits them. Each operation
-- returns the new store and the signals in the order in which they are emitted; the handlers run
-- once the table has its new content, as in the source.
pub mod Laws
pub mod Search
use mate_session_manager.Base.{
  ℕ, Bool, true, false, not, Option, none, some, List, [], ◌∷◌, ◌++◌, if◌then◌else◌, length, Eq,
  is_some,
}

pub record Store {ℓ κ} (K : Type ℓ) (A : Type κ) : Type (ℓ ⊔ κ) where
  pub objects : List (K × A)
  pub locked : Bool

pub data Signal {ℓ} (K : Type ℓ) : Type ℓ where
  added : K → Signal K
  removed : K → Signal K

-- The loop over the list of removed keys.
abbrev pub emit_removed {ℓ} : {K : Type ℓ} → List K → List (Signal K)
emit_removed [] = []
emit_removed (k ∷ ks) = removed k ∷ emit_removed ks

module _ {ℓ κ} {K : Type ℓ} {A : Type κ} where
  -- `gsm_store_init`; the property "locked" is false at first.
  abbrev pub new : Store K A
  new = record { objects = []; locked = false }

  unfoldable pub size : Store K A → ℕ
  size s = length s.objects

  -- `g_hash_table_find`: the first entry that passes.
  unfoldable pub find_in : (K → A → Bool) → List (K × A) → Option (K × A)
  find_in p [] = none
  find_in p ((k, a) ∷ r) = let rest = find_in p r in if p k a then some (k, a) else rest

  unfoldable pub find : (K → A → Bool) → Store K A → Option (K × A)
  unfolding find_in
  find p s = find_in p s.objects

  unfoldable pub set_locked : Bool → Store K A → Store K A
  set_locked b s = record s { locked = b }

  -- The entries that stay when those that pass are taken out, and the keys of those that go.
  unfoldable pub kept : (K → A → Bool) → List (K × A) → List (K × A)
  kept p [] = []
  kept p ((k, a) ∷ r) = let rest = kept p r in if p k a then rest else (k, a) ∷ rest

  -- `foreach_remove_wrapper` prepends each key, so the list is the reverse of the visits.
  unfoldable pub prepend_removed : (K → A → Bool) → List (K × A) → List K → List K
  prepend_removed p [] acc = acc
  prepend_removed p ((k, a) ∷ r) acc = prepend_removed p r (if p k a then k ∷ acc else acc)

  unfoldable pub foreach_remove : (K → A → Bool) → Store K A → Store K A × List (Signal K)
  unfolding kept prepend_removed
  foreach_remove p s =
      (record s { objects = kept p s.objects }, emit_removed (prepend_removed p s.objects []))

  -- `gsm_store_clear`, with `_remove_all`.
  unfoldable pub clear : Store K A → Store K A × List (Signal K)
  unfolding foreach_remove
  clear s = foreach_remove (λ _ _. true) s

module _ {ℓ κ} {K : Type ℓ} {A : Type κ} ⦃e : Eq K⦄ where
  unfoldable pub lookup_in : K → List (K × A) → Option A
  lookup_in k [] = none
  lookup_in k ((j, a) ∷ r) = let rest = lookup_in k r in if e.beq j k then some a else rest

  unfoldable pub lookup : K → Store K A → Option A
  unfolding lookup_in
  lookup k s = lookup_in k s.objects

  -- `g_hash_table_insert`: a new value for a key that is there, else a new entry.
  unfoldable pub insert_in : K → A → List (K × A) → List (K × A)
  insert_in k a [] = (k, a) ∷ []
  insert_in k a ((j, b) ∷ r) =
      let rest = insert_in k a r in if e.beq j k then (j, a) ∷ r else (j, b) ∷ rest

  -- `g_hash_table_remove`.
  unfoldable pub remove_in : K → List (K × A) → List (K × A)
  remove_in k [] = []
  remove_in k ((j, b) ∷ r) = let rest = remove_in k r in if e.beq j k then r else (j, b) ∷ rest

  -- A locked store takes no new object.
  unfoldable pub add : K → A → Store K A → Store K A × Bool × List (Signal K)
  unfolding insert_in
  add k a s =
      if s.locked
      then (s, false, [])
      else (record s { objects = insert_in k a s.objects }, true, added k ∷ [])

  unfoldable pub remove : K → Store K A → Store K A × Bool × List (Signal K)
  unfolding lookup remove_in
  remove k s =
      if is_some (lookup k s)
      then (record s { objects = remove_in k s.objects }, true, removed k ∷ [])
      else (s, false, [])
