-- ===== src/Base/Dict.antt =====
-- Maps as association lists. `insert` keeps the place of a key it replaces and adds a new key at
-- the end, which serves for `HashMap`, whose order the code does not rely on; `insert_sorted` is
-- the insertion of a `BTreeMap` with text keys, which keeps the keys in ascending order.
use Prim.Native.Nat.{Ordering}
use Prim.Native.String.{compare}
use text.Mathlib.TextEquality.{path_by_compare}
use text.Mathlib.TextPositions.{compare_refl}
use faasten.Base.{
  String, ◌≡◌, refl, subst, Bool, Option, none, some, List, [], ◌∷◌, arith, if◌then◌else◌, is_some,
  Equality, ◌==◌, name_eq, test_refl,
}

abbrev pub Dict {ℓ κ} : Type ℓ → Type κ → Type (ℓ ⊔ κ)
Dict K V = List (K × V)

module _ {ℓ κ} {K : Type ℓ} {V : Type κ} ⦃e : Equality K⦄ where
  unfoldable pub get : K → Dict K V → Option V
  get k [] = none
  get k ((j, v) ∷ m) = if j == k then some v else get k m

  unfoldable pub insert : K → V → Dict K V → Dict K V
  insert k v [] = (k, v) ∷ []
  insert k v ((j, w) ∷ m) = if j == k then (k, v) ∷ m else (j, w) ∷ insert k v m

  unfoldable pub remove : K → Dict K V → Dict K V
  remove k [] = []
  remove k ((j, v) ∷ m) = let rest = remove k m in if j == k then rest else (j, v) ∷ rest

  unfoldable pub contains_key : K → Dict K V → Bool
  contains_key k m = is_some (get k m)

  pub get-insert :
      (k j : K) (v : V) (m : Dict K V) → get j (insert k v m) ≡ (if k == j then some v else get j m)
  unfolding get insert
  get-insert k j v [] = refl
  get-insert k j v ((i, w) ∷ m) =
      ground (arith, get-insert k j v m, e.test_iff i k, e.test_iff i j, e.test_iff k j)

  pub get-remove :
      (k j : K) (m : Dict K V) → get j (remove k m) ≡ (if k == j then none else get j m)
  unfolding get remove
  get-remove k j [] = ground arith
  get-remove k j ((i, w) ∷ m) =
      ground (arith, get-remove k j m, e.test_iff i k, e.test_iff i j, e.test_iff k j)

  pub get-insert_self : (k : K) (v : V) (m : Dict K V) → get k (insert k v m) ≡ some v
  get-insert_self k v m = rw (get-insert, test_refl k)

  pub get-remove_self : (k : K) (m : Dict K V) → get k (remove k m) ≡ none
  get-remove_self k m = rw (get-remove, test_refl k)

compare_eq : (k i : String) → k ≡ i → compare k i ≡ Ordering.eq
compare_eq k i e = subst (λ s. compare k s ≡ Ordering.eq) e (compare_refl k)

-- The insertion of a `BTreeMap<String, V>`.
module _ {κ} {V : Type κ} where
  unfoldable pub insert_sorted : String → V → Dict String V → Dict String V
  insert_sorted k v [] = (k, v) ∷ []
  insert_sorted k v ((j, w) ∷ m) =
      let rest = insert_sorted k v m in
      elim (compare k j) [
        | Ordering.lt ↦ (k, v) ∷ (j, w) ∷ m
        | Ordering.eq ↦ (k, v) ∷ m
        | Ordering.gt ↦ (j, w) ∷ rest
      ]

  pub get-insert_sorted :
      (k j : String) (v : V) (m : Dict String V)
      → get j (insert_sorted k v m) ≡ (if k == j then some v else get j m)
  unfolding get insert_sorted
  get-insert_sorted k j v [] = refl
  get-insert_sorted k j v ((i, w) ∷ m) = ground (
    arith,
    get-insert_sorted k j v m,
    path_by_compare k i,
    compare_eq k i,
    name_eq.test_iff i j,
    name_eq.test_iff k j,
  )
