-- ===== src/Base/Maps.antt =====
-- `Map<string, V>` and `Set<string>` in insertion order, keyed by byte strings.
use mathlib.Core.Path.{◌≡◌, refl}
use mathlib.Core.Bool.{Bool, true, false, ◌||◌}
use mathlib.Core.List.{List, [], ◌∷◌, ◌++◌}
use mathlib.Core.Option.{Option, none, some, or_else}
use native.Mathlib.Omega.{arith}
use carmentis_node.Base.Tests.{Bytes, bytes_eq, bytes_eq_iff, if◌then◌else◌}

abbrev pub Map {ℓ} : Type ℓ → Type ℓ
Map V = List (Bytes × V)

module _ {ℓ} {V : Type ℓ} where
  -- `map.get(k)`
  unfoldable pub find : Bytes → Map V → Option V
  find k [] = none
  find k ((j, v) ∷ m) = if bytes_eq j k then some v else find k m

  -- `map.set(k, v)`: a key that is there keeps its place.
  unfoldable pub insert : Bytes → V → Map V → Map V
  insert k v [] = (k, v) ∷ []
  insert k v ((j, w) ∷ m) = if bytes_eq j k then (j, v) ∷ m else (j, w) ∷ insert k v m

  -- `map.delete(k)`
  unfoldable pub erase : Bytes → Map V → Map V
  erase k [] = []
  erase k ((j, w) ∷ m) = let rest = erase k m in if bytes_eq j k then rest else (j, w) ∷ rest

  -- `map.has(k)`
  unfoldable pub has_key : Bytes → Map V → Bool
  unfolding find
  has_key k m = elim (find k m) [ none ↦ false | some _ ↦ true ]

  -- The entries whose key passes a test.
  unfoldable pub keep : (Bytes → Bool) → Map V → Map V
  keep p [] = []
  keep p ((j, w) ∷ m) = let rest = keep p m in if p j then (j, w) ∷ rest else rest

  unfoldable pub keys : Map V → List Bytes
  keys [] = []
  keys ((j, w) ∷ m) = j ∷ keys m

  pub find-insert :
      (k j : Bytes) (v : V) (m : Map V)
      → find j (insert k v m) ≡ (if bytes_eq k j then some v else find j m)
  unfolding find insert
  find-insert k j v [] = refl
  find-insert k j v ((i, w) ∷ m) =
      ground (arith, bytes_eq_iff i k, bytes_eq_iff i j, bytes_eq_iff k j, find-insert k j v m)

  pub find-erase :
      (k j : Bytes) (m : Map V) → find j (erase k m) ≡ (if bytes_eq k j then none else find j m)
  unfolding find erase
  find-erase k j [] = ground arith
  find-erase k j ((i, w) ∷ m) =
      ground (arith, bytes_eq_iff i k, bytes_eq_iff i j, bytes_eq_iff k j, find-erase k j m)

  pub find-keep :
      (p : Bytes → Bool) (j : Bytes) (m : Map V)
      → find j (keep p m) ≡ (if p j then find j m else none)
  unfolding find keep
  find-keep p j [] = ground arith
  find-keep p j ((i, w) ∷ m) = ground (arith, bytes_eq_iff i j, find-keep p j m)

  pub find-append : (j : Bytes) (m n : Map V) → find j (m ++ n) ≡ or_else (find j m) (find j n)
  unfolding find or_else
  find-append j [] n = refl
  find-append j ((i, w) ∷ m) n = ground (arith, find-append j m n)

  -- No key occurs twice.
  abbrev pub IsUnique : Map V → Type ℓ
  IsUnique [] = Unit
  IsUnique ((j, w) ∷ m) = (find j m ≡ none) × IsUnique m

  pub insert-IsUnique : (k : Bytes) (v : V) (m : Map V) → IsUnique m → IsUnique (insert k v m)
  unfolding insert find
  insert-IsUnique k v [] h = (refl, tt)
  insert-IsUnique k v ((i, w) ∷ m) h =
      ground
        (arith, bytes_eq_iff i k, bytes_eq_iff k i, find-insert k i v m, insert-IsUnique k v m h.1)

  pub erase-IsUnique : (k : Bytes) (m : Map V) → IsUnique m → IsUnique (erase k m)
  unfolding erase find
  erase-IsUnique k [] h = tt
  erase-IsUnique k ((i, w) ∷ m) h =
      ground (arith, bytes_eq_iff k i, find-erase k i m, erase-IsUnique k m h.1)

-- `set.has(k)`
unfoldable pub has : Bytes → List Bytes → Bool
has k [] = false
has k (j ∷ s) = bytes_eq j k || has k s

-- `set.add(k)`
unfoldable pub add : Bytes → List Bytes → List Bytes
unfolding has
add k s = if has k s then s else s ++ (k ∷ [])

-- `set.delete(k)`
unfoldable pub remove : Bytes → List Bytes → List Bytes
remove k [] = []
remove k (j ∷ s) = let rest = remove k s in if bytes_eq j k then rest else j ∷ rest

pub has-append : (j : Bytes) (s t : List Bytes) → has j (s ++ t) ≡ has j s || has j t
unfolding has
has-append j [] t = refl
has-append j (i ∷ s) t = ground (arith, has-append j s t)

pub has-add : (k j : Bytes) (s : List Bytes) → has j (add k s) ≡ bytes_eq k j || has j s
unfolding add has
has-add k j s = ground (arith, bytes_eq_iff k j, has-append j s (k ∷ []))

pub has-remove :
    (k j : Bytes) (s : List Bytes) → has j (remove k s) ≡ (if bytes_eq k j then false else has j s)
unfolding has remove
has-remove k j [] = ground arith
has-remove k j (i ∷ s) =
    ground (arith, bytes_eq_iff i k, bytes_eq_iff i j, bytes_eq_iff k j, has-remove k j s)

pub has-keys {ℓ} : {V : Type ℓ} (k : Bytes) (m : Map V) → has k (keys m) ≡ has_key k m
unfolding has keys has_key find
has-keys k [] = refl
has-keys k ((i, w) ∷ m) = ground (arith, has-keys k m)
