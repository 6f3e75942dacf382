-- ===== src/Base/Dict.antt =====
-- Objects and maps from texts to values, as lists of entries in the order of their insertion.
use ponswars.Base.{◌≡◌, refl, List, [], ◌∷◌, Option, none, some, if◌then◌else◌, arith}
use ponswars.Base.Text.{Text, text_eq, text_eq_iff}

module _ {ℓ} {V : Type ℓ} where
  -- `m[k]`, `m.get(k)`
  unfoldable pub lookup : Text → List (Text × V) → Option V
  lookup k [] = none
  lookup k ((j, v) ∷ m) = if text_eq j k then some v else lookup k m

  -- `{ ...m, [k]: v }`, `m.set(k, v)`: an entry that is there keeps its place.
  unfoldable pub assign : Text → V → List (Text × V) → List (Text × V)
  assign k v [] = (k, v) ∷ []
  assign k v ((j, w) ∷ m) = if text_eq j k then (j, v) ∷ m else (j, w) ∷ assign k v m

  -- The entries but that of a key.
  unfoldable pub omit : Text → List (Text × V) → List (Text × V)
  omit k [] = []
  omit k ((j, w) ∷ m) = if text_eq j k then omit k m else (j, w) ∷ omit k m

  pub lookup-assign :
      (k j : Text) (v : V) (m : List (Text × V))
      → lookup j (assign k v m) ≡ (if text_eq k j then some v else lookup j m)
  unfolding lookup assign
  lookup-assign k j v [] = refl
  lookup-assign k j v ((i, w) ∷ m) =
      ground (arith, text_eq_iff k j, text_eq_iff i k, text_eq_iff i j, lookup-assign k j v m)

  pub lookup-omit :
      (k j : Text) (m : List (Text × V))
      → lookup j (omit k m) ≡ (if text_eq k j then none else lookup j m)
  unfolding lookup omit
  lookup-omit k j [] = ground arith
  lookup-omit k j ((i, w) ∷ m) =
      ground (arith, text_eq_iff k j, text_eq_iff i k, text_eq_iff i j, lookup-omit k j m)
