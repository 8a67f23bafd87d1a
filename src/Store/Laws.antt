-- ===== src/Store/Laws.antt =====
-- Laws of the store (mate-session/gsm-store.c): it behaves as a finite map from identifiers to
-- objects that can be shut for additions.
use mate_session_manager.Base.{
  suc, ◌+◌, ◌≡◌, refl, ap, Bool, true, false, not, ◌&&◌, ◌||◌, none, some, List, [], ◌∷◌,
  if◌then◌else◌, length, Eq, is_some, arith,
}
use mate_session_manager.Store.{
  Store, added, removed, size, find_in, find, kept, prepend_removed, emit_removed, foreach_remove,
  lookup_in, lookup, insert_in, remove_in, add, remove,
}

module _ {ℓ κ} {K : Type ℓ} {A : Type κ} ⦃e : Eq K⦄ where
  abbrev pub has_key : K → List (K × A) → Bool
  has_key k [] = false
  has_key k ((j, _) ∷ r) = e.beq j k || has_key k r

  -- No two entries have one key: the invariant of the table.
  abbrev pub HasDistinctKeys : List (K × A) → Type 0
  HasDistinctKeys [] = Unit {0}
  HasDistinctKeys ((k, a) ∷ r) = (has_key k r ≡ false) × HasDistinctKeys r

  pub lookup_in-insert_in :
      (k j : K) (a : A) (l : List (K × A))
      → lookup_in j (insert_in k a l) ≡ (if e.beq k j then some a else lookup_in j l)
  unfolding lookup_in insert_in
  lookup_in-insert_in k j a [] = refl
  lookup_in-insert_in k j a ((i, b) ∷ r) =
      ground (arith, e.beq_iff i k, e.beq_iff i j, e.beq_iff k j, lookup_in-insert_in k j a r)

  pub lookup_in_absent : (k : K) (l : List (K × A)) → has_key k l ≡ false → lookup_in k l ≡ none
  unfolding lookup_in
  lookup_in_absent k [] h = refl
  lookup_in_absent k ((i, b) ∷ r) h = ground (arith, lookup_in_absent k r)

  pub lookup_in-remove_in :
      (k j : K) (l : List (K × A))
      → HasDistinctKeys l
      → lookup_in j (remove_in k l) ≡ (if e.beq k j then none else lookup_in j l)
  unfolding lookup_in remove_in
  lookup_in-remove_in k j [] d = ground arith
  lookup_in-remove_in k j ((i, b) ∷ r) d = ground (
    arith,
    e.beq_iff i k,
    e.beq_iff i j,
    e.beq_iff k j,
    lookup_in-remove_in k j r d.1,
    lookup_in_absent i r d.0,
  )

  pub has_key-insert_in :
      (k j : K) (a : A) (l : List (K × A))
      → has_key j (insert_in k a l) ≡ (e.beq k j || has_key j l)
  unfolding insert_in
  has_key-insert_in k j a [] = refl
  has_key-insert_in k j a ((i, b) ∷ r) =
      ground (arith, e.beq_iff i k, e.beq_iff i j, e.beq_iff k j, has_key-insert_in k j a r)

  pub insert_in-HasDistinctKeys :
      (k : K) (a : A) (l : List (K × A)) → HasDistinctKeys l → HasDistinctKeys (insert_in k a l)
  unfolding insert_in
  insert_in-HasDistinctKeys k a [] d = ground arith
  insert_in-HasDistinctKeys k a ((i, b) ∷ r) d = ground (
    arith,
    e.beq_iff i k,
    e.beq_iff k i,
    has_key-insert_in k i a r,
    insert_in-HasDistinctKeys k a r d.1,
  )

  has_key-remove_in :
      (k j : K) (l : List (K × A)) → has_key j l ≡ false → has_key j (remove_in k l) ≡ false
  unfolding remove_in
  has_key-remove_in k j [] h = refl
  has_key-remove_in k j ((i, b) ∷ r) h = ground (arith, has_key-remove_in k j r)

  pub remove_in-HasDistinctKeys :
      (k : K) (l : List (K × A)) → HasDistinctKeys l → HasDistinctKeys (remove_in k l)
  unfolding remove_in
  remove_in-HasDistinctKeys k [] d = tt
  remove_in-HasDistinctKeys k ((i, b) ∷ r) d =
      ground (arith, has_key-remove_in k i r, remove_in-HasDistinctKeys k r d.1)

  has_key-kept :
      (p : K → A → Bool) (j : K) (l : List (K × A))
      → has_key j l ≡ false
      → has_key j (kept p l) ≡ false
  unfolding kept
  has_key-kept p j [] h = refl
  has_key-kept p j ((i, b) ∷ r) h = ground (arith, has_key-kept p j r)

  kept-HasDistinctKeys :
      (p : K → A → Bool) (l : List (K × A)) → HasDistinctKeys l → HasDistinctKeys (kept p l)
  unfolding kept
  kept-HasDistinctKeys p [] d = tt
  kept-HasDistinctKeys p ((i, b) ∷ r) d =
      ground (arith, has_key-kept p i r, kept-HasDistinctKeys p r d.1)

  -- An object added to a store that is not locked is found under its identifier, in place of the one
  -- before; all other identifiers keep theirs. A locked store refuses: nothing changes, and no
  -- signal is emitted.
  pub lookup-add :
      (k j : K) (a : A) (s : Store K A)
      → let (s', done, signals) = add k a s in
        (lookup j s' ≡ (if not s.locked && e.beq k j then some a else lookup j s))
        × (done ≡ not s.locked)
        × (signals ≡ (if s.locked then [] else added k ∷ []))
        × (s'.locked ≡ s.locked)
  unfolding add lookup
  lookup-add k j a s = ground (arith, lookup_in-insert_in k j a s.objects)

  -- With distinct keys, a removal takes away the object of the one identifier, keeps all others,
  -- and succeeds, with one signal, exactly when there was an object.
  pub lookup-remove :
      (k j : K) (s : Store K A)
      → HasDistinctKeys s.objects
      → let (s', done, signals) = remove k s in
        (lookup j s' ≡ (if e.beq k j then none else lookup j s))
        × (done ≡ is_some (lookup k s))
        × (signals ≡ (if is_some (lookup k s) then removed k ∷ [] else []))
  unfolding remove lookup
  lookup-remove k j s d = ground (arith, lookup_in-remove_in k j s.objects d, e.beq_iff k j)

  -- In a store with distinct keys: an object added, if the store is not locked, is found under its
  -- identifier, in place of the one before, and all other identifiers keep theirs; a locked store
  -- refuses, without a signal, and stays as it was. A removal takes away the object of the one
  -- identifier, keeps all others, and succeeds, with one signal, exactly when there was an object.
  pub lookup_laws :
      (k j : K) (a : A) (s : Store K A)
      → HasDistinctKeys s.objects
      → (let (s', done, signals) = add k a s in
          (lookup j s' ≡ (if not s.locked && e.beq k j then some a else lookup j s))
          × (done ≡ not s.locked)
          × (signals ≡ (if s.locked then [] else added k ∷ []))
          × (s'.locked ≡ s.locked))
        × (let (s', done, signals) = remove k s in
            (lookup j s' ≡ (if e.beq k j then none else lookup j s))
            × (done ≡ is_some (lookup k s))
            × (signals ≡ (if is_some (lookup k s) then removed k ∷ [] else [])))
  lookup_laws k j a s d = (lookup-add k j a s, lookup-remove k j s d)

  -- Every operation keeps the keys distinct.
  pub store_ops-HasDistinctKeys :
      (k : K) (a : A) (p : K → A → Bool) (s : Store K A)
      → HasDistinctKeys s.objects
      → HasDistinctKeys (add k a s).0.objects
        × HasDistinctKeys (remove k s).0.objects
        × HasDistinctKeys (foreach_remove p s).0.objects
  unfolding add remove foreach_remove
  store_ops-HasDistinctKeys k a p s d = (
    ground (arith, insert_in-HasDistinctKeys k a s.objects d),
    ground (arith, remove_in-HasDistinctKeys k s.objects d),
    kept-HasDistinctKeys p s.objects d,
  )

length-emit_removed {ℓ} : {K : Type ℓ} (ks : List K) → length (emit_removed ks) ≡ length ks
length-emit_removed [] = refl
length-emit_removed (k ∷ ks) = ap suc (length-emit_removed ks)

module _ {ℓ κ} {K : Type ℓ} {A : Type κ} where
  find_in-kept : (p : K → A → Bool) (l : List (K × A)) → find_in p (kept p l) ≡ none
  unfolding find_in kept
  find_in-kept p [] = refl
  find_in-kept p ((k, a) ∷ r) = ground (arith, find_in-kept p r)

  length-kept :
      (p : K → A → Bool) (l : List (K × A)) (acc : List K)
      → length (kept p l) + length (prepend_removed p l acc) ≡ length l + length acc
  unfolding kept prepend_removed
  length-kept p [] acc = refl
  length-kept p ((k, a) ∷ r) acc = ground (arith, length-kept p r (k ∷ acc), length-kept p r acc)

  find_in-kept_other :
      (p q : K → A → Bool) (l : List (K × A))
      → ((k : K) (a : A) → q k a ≡ true → p k a ≡ false)
      → find_in q (kept p l) ≡ find_in q l
  unfolding find_in kept
  find_in-kept_other p q [] h = refl
  find_in-kept_other p q ((k, a) ∷ r) h = ground (arith, h k a, find_in-kept_other p q r h)

  -- After the removal of all that pass a test nothing passes it; as many signals are emitted as
  -- objects are gone; and a search for what the test lets stay has the same answer as before.
  pub find-foreach_remove :
      (p q : K → A → Bool) (s : Store K A)
      → ((k : K) (a : A) → q k a ≡ true → p k a ≡ false)
      → let (s', signals) = foreach_remove p s in
        (find p s' ≡ none)
        × (find q s' ≡ find q s)
        × (size s' + length signals ≡ size s)
        × (s'.locked ≡ s.locked)
  unfolding foreach_remove find size
  find-foreach_remove p q s h = (
    find_in-kept p s.objects,
    find_in-kept_other p q s.objects h,
    omega (arith, length-kept p s.objects [], length-emit_removed (prepend_removed p s.objects [])),
    refl,
  )
