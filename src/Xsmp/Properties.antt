-- ===== src/Xsmp/Properties.antt =====
-- The properties of an XSMP client (mate-session/gsm-xsmp-client.c): an array in which a name is
-- searched for, and from which the last element fills the gap that a deletion leaves.
use mate_session_manager.Base.{
  ◌≡◌, refl, Bool, false, ◌||◌, Option, none, some, List, [], ◌∷◌, arith, if◌then◌else◌, Eq,
}

-- `SmProp`: a name, a type, and the values.
pub record Property {ℓ κ} (K : Type ℓ) (A : Type κ) : Type (ℓ ⊔ κ) where
  pub name : K
  pub kind : K
  pub vals : A

module _ {ℓ κ} {K : Type ℓ} {A : Type κ} where
  abbrev last_of : Property K A → List (Property K A) → Property K A
  last_of p [] = p
  last_of p (q ∷ r) = last_of q r

  -- All but the last.
  abbrev front_of : Property K A → List (Property K A) → List (Property K A)
  front_of p [] = []
  front_of p (q ∷ r) = p ∷ front_of q r

  -- `g_ptr_array_remove_index_fast` of the first element: the last one takes its place.
  unfoldable pub remove_first_fast : List (Property K A) → List (Property K A)
  remove_first_fast [] = []
  remove_first_fast (p ∷ []) = []
  remove_first_fast (p ∷ q ∷ r) = last_of q r ∷ front_of q r

  -- `g_ptr_array_add`.
  unfoldable pub append : Property K A → List (Property K A) → List (Property K A)
  append p [] = p ∷ []
  append p (q ∷ r) = q ∷ append p r

module _ {ℓ κ} {K : Type ℓ} {A : Type κ} ⦃e : Eq K⦄ where
  unfoldable pub find_property : K → List (Property K A) → Option (Property K A)
  find_property n [] = none
  find_property n (p ∷ r) = let rest = find_property n r in if e.beq p.name n then some p else rest

  unfoldable pub delete_property : K → List (Property K A) → List (Property K A)
  unfolding remove_first_fast
  delete_property n [] = []
  delete_property n (p ∷ r) =
      let rest = delete_property n r in
      if e.beq p.name n then remove_first_fast (p ∷ r) else p ∷ rest

  -- One round of the loop of `set_properties_callback`, and the loop.
  unfoldable pub set_property : Property K A → List (Property K A) → List (Property K A)
  unfolding delete_property append
  set_property p l = append p (delete_property p.name l)

  unfoldable pub set_properties : List (Property K A) → List (Property K A) → List (Property K A)
  unfolding set_property
  set_properties [] l = l
  set_properties (p ∷ r) l = set_properties r (set_property p l)

  unfoldable pub delete_properties : List K → List (Property K A) → List (Property K A)
  unfolding delete_property
  delete_properties [] l = l
  delete_properties (n ∷ r) l = delete_properties r (delete_property n l)

  abbrev has_name : K → List (Property K A) → Bool
  has_name n [] = false
  has_name n (p ∷ r) = e.beq p.name n || has_name n r

  -- No two properties have one name.
  abbrev pub HasDistinctNames : List (Property K A) → Type 0
  HasDistinctNames [] = Unit {0}
  HasDistinctNames (p ∷ r) = (has_name p.name r ≡ false) × HasDistinctNames r

  has_name-rotated :
      (n : K) (p : Property K A) (r : List (Property K A))
      → has_name n (last_of p r ∷ front_of p r) ≡ has_name n (p ∷ r)
  has_name-rotated n p [] = refl
  has_name-rotated n p (q ∷ r) = ground (arith, has_name-rotated n q r)

  has_name-last :
      (n : K) (p : Property K A) (r : List (Property K A))
      → has_name n (p ∷ r) ≡ false
      → e.beq (last_of p r).name n ≡ false
  has_name-last n p [] h = ground arith
  has_name-last n p (q ∷ r) h = has_name-last n q r (ground arith)

  -- Where the last element stands makes no difference to a search.
  find_property-rotated :
      (n : K) (p : Property K A) (r : List (Property K A))
      → HasDistinctNames (p ∷ r)
      → find_property n (last_of p r ∷ front_of p r) ≡ find_property n (p ∷ r)
  unfolding find_property
  find_property-rotated n p [] d = refl
  find_property-rotated n p (q ∷ r) d = ground (
    arith,
    find_property-rotated n q r d.1,
    has_name-last p.name q r d.0,
    e.beq_iff p.name n,
    e.beq_iff (last_of q r).name n,
    e.beq_iff (last_of q r).name p.name,
  )

  HasDistinctNames-rotated :
      (p : Property K A) (r : List (Property K A))
      → HasDistinctNames (p ∷ r)
      → HasDistinctNames (last_of p r ∷ front_of p r)
  HasDistinctNames-rotated p [] d = d
  HasDistinctNames-rotated p (q ∷ r) d = ground (
    arith,
    HasDistinctNames-rotated q r d.1,
    has_name-rotated p.name q r,
    e.beq_iff p.name (last_of q r).name,
    e.beq_iff (last_of q r).name p.name,
  )

  find_property_absent :
      (n : K) (l : List (Property K A)) → has_name n l ≡ false → find_property n l ≡ none
  unfolding find_property
  find_property_absent n [] h = refl
  find_property_absent n (p ∷ r) h = ground (arith, find_property_absent n r)

  find_property-remove_first :
      (n : K) (p : Property K A) (r : List (Property K A))
      → HasDistinctNames r
      → find_property n (remove_first_fast (p ∷ r)) ≡ find_property n r
  unfolding remove_first_fast
  find_property-remove_first n p [] d = refl
  find_property-remove_first n p (q ∷ r) d = find_property-rotated n q r d

  has_name-remove_first :
      (n : K) (p : Property K A) (r : List (Property K A))
      → has_name n (remove_first_fast (p ∷ r)) ≡ has_name n r
  unfolding remove_first_fast
  has_name-remove_first n p [] = refl
  has_name-remove_first n p (q ∷ r) = has_name-rotated n q r

  remove_first-HasDistinctNames :
      (p : Property K A) (r : List (Property K A))
      → HasDistinctNames r
      → HasDistinctNames (remove_first_fast (p ∷ r))
  unfolding remove_first_fast
  remove_first-HasDistinctNames p [] d = tt
  remove_first-HasDistinctNames p (q ∷ r) d = HasDistinctNames-rotated q r d

  has_name-delete_property :
      (n k : K) (l : List (Property K A))
      → has_name n l ≡ false
      → has_name n (delete_property k l) ≡ false
  unfolding delete_property
  has_name-delete_property n k [] h = refl
  has_name-delete_property n k (p ∷ r) h =
      ground (arith, has_name-delete_property n k r, has_name-remove_first n p r)

  delete_property-HasDistinctNames :
      (k : K) (l : List (Property K A))
      → HasDistinctNames l
      → HasDistinctNames (delete_property k l) × (has_name k (delete_property k l) ≡ false)
  unfolding delete_property
  delete_property-HasDistinctNames k [] d = (tt, refl)
  delete_property-HasDistinctNames k (p ∷ r) d = ground (
    arith,
    delete_property-HasDistinctNames k r d.1,
    remove_first-HasDistinctNames p r d.1,
    has_name-remove_first k p r,
    has_name-delete_property p.name k r d.0,
    e.beq_iff p.name k,
  )

  find_property-delete_property :
      (n k : K) (l : List (Property K A))
      → HasDistinctNames l
      → find_property n (delete_property k l) ≡ (if e.beq k n then none else find_property n l)
  unfolding delete_property find_property
  find_property-delete_property n k [] d = ground arith
  find_property-delete_property n k (p ∷ r) d = ground (
    arith,
    find_property-delete_property n k r d.1,
    find_property-remove_first n p r d.1,
    find_property_absent p.name r d.0,
    e.beq_iff p.name k,
    e.beq_iff p.name n,
    e.beq_iff k n,
  )

  find_property-append :
      (n : K) (p : Property K A) (l : List (Property K A))
      → has_name p.name l ≡ false
      → find_property n (append p l) ≡ (if e.beq p.name n then some p else find_property n l)
  unfolding append find_property
  find_property-append n p [] h = refl
  find_property-append n p (q ∷ r) h = ground (
    arith,
    find_property-append n p r,
    e.beq_iff q.name p.name,
    e.beq_iff q.name n,
    e.beq_iff p.name n,
  )

  has_name-append :
      (n : K) (p : Property K A) (l : List (Property K A))
      → has_name n (append p l) ≡ (e.beq p.name n || has_name n l)
  unfolding append
  has_name-append n p [] = refl
  has_name-append n p (q ∷ r) = ground (arith, has_name-append n p r)

  append-HasDistinctNames :
      (p : Property K A) (l : List (Property K A))
      → has_name p.name l ≡ false
      → HasDistinctNames l
      → HasDistinctNames (append p l)
  unfolding append
  append-HasDistinctNames p [] h d = ground arith
  append-HasDistinctNames p (q ∷ r) h d = ground (
    arith,
    append-HasDistinctNames p r,
    has_name-append q.name p r,
    e.beq_iff q.name p.name,
    e.beq_iff p.name q.name,
  )

  -- With distinct names: a property that is set is found under its name, a deleted name is not found,
  -- every other name keeps its property, and the names stay distinct.
  pub find_property_laws :
      (n k : K) (p : Property K A) (l : List (Property K A))
      → HasDistinctNames l
      → (find_property n (set_property p l)
          ≡ (if e.beq p.name n then some p else find_property n l))
        × (find_property n (delete_property k l) ≡ (if e.beq k n then none else find_property n l))
        × HasDistinctNames (set_property p l)
        × HasDistinctNames (delete_property k l)
  unfolding set_property
  find_property_laws n k p l d =
      let (distinct, absent) = delete_property-HasDistinctNames p.name l d in
      (
        ground (
          arith,
          find_property-append n p (delete_property p.name l) absent,
          find_property-delete_property n p.name l d,
        ),
        find_property-delete_property n k l d,
        append-HasDistinctNames p (delete_property p.name l) absent distinct,
        (delete_property-HasDistinctNames k l d).0,
      )
