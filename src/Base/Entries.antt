-- ===== src/Base/Entries.antt =====
-- Maps by a test on their keys, as lists of entries in the order of their insertion.
use ponswars.Base.{
  ◌≡◌, ◌↔◌, refl, Bool, true, List, [], ◌∷◌, Option, none, some, if◌then◌else◌, arith,
}

module _ {ℓ κ} {K : Type ℓ} {V : Type κ} (same : K → K → Bool) where
  -- `m.get(k)`
  unfoldable pub entry : K → List (K × V) → Option V
  entry k [] = none
  entry k ((j, v) ∷ m) = if same j k then some v else entry k m

  -- `m.set(k, v)`: an entry that is there keeps its place.
  unfoldable pub put : K → V → List (K × V) → List (K × V)
  put k v [] = (k, v) ∷ []
  put k v ((j, w) ∷ m) = if same j k then (j, v) ∷ m else (j, w) ∷ put k v m

  -- `m.delete(k)`
  unfoldable pub remove : K → List (K × V) → List (K × V)
  remove k [] = []
  remove k ((j, w) ∷ m) = if same j k then remove k m else (j, w) ∷ remove k m

  module _ (same_iff : (a b : K) → (same a b ≡ true) ↔ (a ≡ b)) where
    pub entry-put :
        (k j : K) (v : V) (m : List (K × V))
        → entry j (put k v m) ≡ (if same k j then some v else entry j m)
    unfolding entry put
    entry-put k j v [] = refl
    entry-put k j v ((i, w) ∷ m) =
        ground (arith, same_iff k j, same_iff i k, same_iff i j, entry-put k j v m)

    pub entry-remove :
        (k j : K) (m : List (K × V)) → entry j (remove k m) ≡ (if same k j then none else entry j m)
    unfolding entry remove
    entry-remove k j [] = ground arith
    entry-remove k j ((i, w) ∷ m) =
        ground (arith, same_iff k j, same_iff i k, same_iff i j, entry-remove k j m)
