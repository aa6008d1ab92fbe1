-- ===== src/Prelude/Maps.antt =====
-- Maps and sets with a decided key, as association lists: a key's first entry is its value.
use mathlib.Core.Path.{◌≡◌, refl}
use mathlib.Core.Logic.{◌≢◌}
use mathlib.Core.Bool.{Bool, false, ◌||◌}
use mathlib.Core.List.{List, [], ◌∷◌}
use mathlib.Core.Option.{Option, none, some}
use native.Mathlib.Omega.{arith}
use zhir.Prelude.Tests.{if◌then◌else◌, same, is_some}

abbrev pub Map {ℓ κ} : Type ℓ → Type κ → Type (ℓ ⊔ κ)
Map K V = List (K × V)

module _ {ℓ κ} {K : Type ℓ} {V : Type κ} (d : Discrete K) where
  unfoldable pub lookup : K → Map K V → Option V
  lookup key [] = none
  lookup key ((first, value) ∷ rest) = if same d first key then some value else lookup key rest

  -- `contains_key`.
  unfoldable pub has_key : K → Map K V → Bool
  unfolding lookup
  has_key k m = is_some (lookup k m)

  -- `insert`: the value of a key that is there is replaced in place.
  unfoldable pub insert : K → V → Map K V → Map K V
  insert key value [] = (key, value) ∷ []
  insert key value ((first, old) ∷ rest) =
      if same d first key then (key, value) ∷ rest else (first, old) ∷ insert key value rest

  unfoldable pub remove : K → Map K V → Map K V
  remove k [] = []
  remove k ((j, v) ∷ m) = if same d j k then remove k m else (j, v) ∷ remove k m

  -- What is found after an insertion.
  pub lookup-insert :
      (key wanted : K) (value : V) (m : Map K V)
      → lookup wanted (insert key value m)
        ≡ (if same d key wanted then some value else lookup wanted m)
  unfolding insert lookup
  lookup-insert key wanted value ((first, old) ∷ rest) =
      ground (arith, lookup-insert key wanted value rest)
  lookup-insert key wanted value [] = refl

  pub lookup-remove :
      (k j : K) (m : Map K V) → lookup j (remove k m) ≡ (if same d k j then none else lookup j m)
  unfolding lookup remove
  lookup-remove k j [] = ground arith
  lookup-remove k j ((i, w) ∷ m) = ground (arith, lookup-remove k j m)

  pub lookup-insert_same :
      (k j : K) (v : V) (m : Map K V) → k ≡ j → lookup j (insert k v m) ≡ some v
  lookup-insert_same k j v m e = ground (arith, lookup-insert k j v m)

  pub lookup-insert_other :
      (k j : K) (v : V) (m : Map K V) → k ≢ j → lookup j (insert k v m) ≡ lookup j m
  lookup-insert_other k j v m ne = ground (arith, lookup-insert k j v m)

  pub lookup-remove_same : (k j : K) (m : Map K V) → k ≡ j → lookup j (remove k m) ≡ none
  lookup-remove_same k j m e = ground (arith, lookup-remove k j m)

  pub lookup-remove_other : (k j : K) (m : Map K V) → k ≢ j → lookup j (remove k m) ≡ lookup j m
  lookup-remove_other k j m ne = ground (arith, lookup-remove k j m)

module _ {ℓ} {K : Type ℓ} (d : Discrete K) where
  unfoldable pub contains : K → List K → Bool
  contains k [] = false
  contains k (j ∷ s) = same d j k || contains k s

  -- `insert` of a set.
  unfoldable pub add : K → List K → List K
  unfolding contains
  add k s = if contains k s then s else k ∷ s

  -- `remove` of a set.
  unfoldable pub discard : K → List K → List K
  discard k [] = []
  discard k (j ∷ s) = if same d j k then discard k s else j ∷ discard k s

  pub contains-add : (k j : K) (s : List K) → contains j (add k s) ≡ (same d k j || contains j s)
  unfolding contains add
  contains-add k j s = ground arith

  pub contains-discard :
      (k j : K) (s : List K)
      → contains j (discard k s) ≡ (if same d k j then false else contains j s)
  unfolding contains discard
  contains-discard k j [] = ground arith
  contains-discard k j (i ∷ s) = ground (arith, contains-discard k j s)
