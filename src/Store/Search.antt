-- ===== src/Store/Search.antt =====
-- Searches in a store that an object was put into or taken out of (mate-session/gsm-store.c).
use mate_session_manager.Base.{
  ◌≡◌, refl, Bool, true, false, none, some, List, [], ◌∷◌, Eq, is_some, arith, ap, Bool-cases, inl,
  inr,
}
use mate_session_manager.Store.{Store, find_in, insert_in, remove_in, remove, lookup_in, lookup}
use mate_session_manager.Store.Laws.{lookup_in-insert_in}

module _ {ℓ κ} {K : Type ℓ} {A : Type κ} ⦃e : Eq K⦄ where
  -- What was put in is found by every test that it passes.
  pub find_in-insert_in :
      (p : K → A → Bool) (k : K) (a : A) (l : List (K × A))
      → p k a ≡ true
      → is_some (find_in p (insert_in k a l)) ≡ true
  unfolding find_in insert_in
  find_in-insert_in p k a [] h = ground arith
  find_in-insert_in p k a ((j, b) ∷ r) h = elim (Bool-cases (e.beq j k)) [
    | inl q ↦ ground (arith, (e.beq_iff j k).0 q, ap (λ i. p i a) ((e.beq_iff j k).0 q))
    | inr q ↦ ground (arith, find_in-insert_in p k a r h)
  ]

  -- A key that is not there is put in at the end.
  pub insert_in-absent :
      (p : K → A → Bool) (k : K) (a : A) (l : List (K × A))
      → lookup_in k l ≡ none
      → p k a ≡ false
      → find_in p (insert_in k a l) ≡ find_in p l
  unfolding find_in insert_in lookup_in
  insert_in-absent p k a [] h f = ground arith
  insert_in-absent p k a ((j, b) ∷ r) h f =
      ground (arith, λ (x : lookup_in k r ≡ none). insert_in-absent p k a r x f)

  -- Taking out what was just put in gives the table back.
  pub remove_in-insert_in :
      (k : K) (a : A) (l : List (K × A)) → lookup_in k l ≡ none → remove_in k (insert_in k a l) ≡ l
  unfolding remove_in insert_in lookup_in
  remove_in-insert_in k a [] h = ground (arith, (e.beq_iff k k).1 refl)
  remove_in-insert_in k a ((j, b) ∷ r) h =
      ground
        (arith, (e.beq_iff k k).1 refl, λ (x : lookup_in k r ≡ none). remove_in-insert_in k a r x)

  pub remove-inserted :
      (k : K) (a : A) (l : List (K × A)) (s : Store K A)
      → s.objects ≡ insert_in k a l
      → lookup_in k l ≡ none
      → (remove k s).0.objects ≡ l
  unfolding remove lookup
  remove-inserted k a l s h n = rw h (
      ground
        (arith, lookup_in-insert_in k k a l, (e.beq_iff k k).1 refl, remove_in-insert_in k a l n))

  -- A test that nothing passes but the new object finds it.
  pub find_in-insert_in_only :
      (p : K → A → Bool) (k : K) (a : A) (l : List (K × A))
      → lookup_in k l ≡ none
      → find_in p l ≡ none
      → p k a ≡ true
      → find_in p (insert_in k a l) ≡ some (k, a)
  unfolding find_in insert_in lookup_in
  find_in-insert_in_only p k a [] h n t = ground arith
  find_in-insert_in_only p k a ((j, b) ∷ r) h n t = ground (
    arith,
    λ (x : lookup_in k r ≡ none). λ (y : find_in p r ≡ none). find_in-insert_in_only p k a r x y t,
  )
