-- ===== src/Database/Cache/Valid.antt =====
-- The invariant of the write cache, and the table that a reader of the cache should see.
use mathlib.Core.Path.{subst}
use carmentis_node.Base.{
  ℕ, ◌≡◌, true, false, Option, none, some, List, [], ◌∷◌, ◌++◌, Bytes, arith, ◌==◌, bytes_eq,
  bytes_eq_iff, if◌then◌else◌, ok, ok_injective, ok-ne-thrown, Bool-cases, inl, inr,
}
use carmentis_node.Base.Maps.{
  Map, find, insert, erase, keys, has, add, remove, IsUnique, find-insert, find-erase,
  insert-IsUnique, erase-IsUnique, has-add, has-remove,
}
use carmentis_node.Database.Level
use carmentis_node.Database.Level.{Level, LevelDb, is_table}
use carmentis_node.Database.Cache.{
  Hex, TableCache, CachedLevelDb, set_cached, create, reset_cache, put_raw, del,
}

module _ (hex : Hex) where
  pub encode_injective :
      (j k : Bytes) → bytes_eq (hex.encode_key j) (hex.encode_key k) ≡ bytes_eq j k
  encode_injective j k = ground (
    arith,
    bytes_eq_iff (hex.encode_key j) (hex.encode_key k),
    bytes_eq_iff j k,
    hex.decode-encode j,
    hex.decode-encode k,
  )

  -- Every key is the encoding of some bytes.
  abbrev pub IsCoded : List Bytes → Type 0
  IsCoded [] = Unit
  IsCoded (s ∷ l) = (hex.encode_key (hex.decode_key s) ≡ s) × IsCoded l

  -- No key is twice in the insertions, or both inserted and deleted; all keys are encodings.
  pub record IsValidTable (c : TableCache) : Type 0 where
    pub unique : IsUnique c.insertions
    pub coded : IsCoded (keys c.insertions)
    pub coded_deletions : IsCoded c.deletions
    pub disjoint : (s : Bytes) → has s c.deletions ≡ true → find s c.insertions ≡ none

  insert-IsCoded :
      (k v : Bytes) (m : Map Bytes)
      → IsCoded (keys m)
      → IsCoded (keys (insert (hex.encode_key k) v m))
  unfolding insert keys
  insert-IsCoded k v [] h = (ap_encode, tt)
    where
      ap_encode : hex.encode_key (hex.decode_key (hex.encode_key k)) ≡ hex.encode_key k
      ap_encode = cc (hex.decode-encode k)
  insert-IsCoded k v ((j, w) ∷ m) h = ground (arith, insert-IsCoded k v m)

  erase-IsCoded : (s : Bytes) (m : Map Bytes) → IsCoded (keys m) → IsCoded (keys (erase s m))
  unfolding erase keys
  erase-IsCoded s [] h = tt
  erase-IsCoded s ((j, w) ∷ m) h = ground (arith, erase-IsCoded s m)

  append-IsCoded : (k : Bytes) (l : List Bytes) → IsCoded l → IsCoded (l ++ (hex.encode_key k ∷ []))
  append-IsCoded k [] h = ground (arith, hex.decode-encode k)
  append-IsCoded k (s ∷ l) h = (h.0, append-IsCoded k l h.1)

  add-IsCoded : (k : Bytes) (l : List Bytes) → IsCoded l → IsCoded (add (hex.encode_key k) l)
  unfolding add
  add-IsCoded k l h = ground (arith, append-IsCoded k l h)

  remove-IsCoded : (s : Bytes) (l : List Bytes) → IsCoded l → IsCoded (remove s l)
  unfolding remove
  remove-IsCoded s [] h = tt
  remove-IsCoded s (j ∷ l) h = ground (arith, remove-IsCoded s l)

  pub put-IsValidTable :
      (k v : Bytes) (c : TableCache)
      → IsValidTable c
      → IsValidTable (record {
        insertions = insert (hex.encode_key k) v c.insertions;
        deletions = remove (hex.encode_key k) c.deletions;
      })
  put-IsValidTable k v c h = record {
    unique = insert-IsUnique (hex.encode_key k) v c.insertions h.unique;
    coded = insert-IsCoded k v c.insertions h.coded;
    coded_deletions = remove-IsCoded (hex.encode_key k) c.deletions h.coded_deletions;
    disjoint = λ s. ground (
      arith,
      has-remove (hex.encode_key k) s c.deletions,
      find-insert (hex.encode_key k) s v c.insertions,
      h.disjoint s,
    );
  }

  pub del-IsValidTable :
      (k : Bytes) (c : TableCache)
      → IsValidTable c
      → IsValidTable (record {
        insertions = erase (hex.encode_key k) c.insertions;
        deletions = add (hex.encode_key k) c.deletions;
      })
  del-IsValidTable k c h = record {
    unique = erase-IsUnique (hex.encode_key k) c.insertions h.unique;
    coded = erase-IsCoded (hex.encode_key k) c.insertions h.coded;
    coded_deletions = add-IsCoded k c.deletions h.coded_deletions;
    disjoint = λ s. ground (
      arith,
      has-add (hex.encode_key k) s c.deletions,
      find-erase (hex.encode_key k) s c.insertions,
      h.disjoint s,
    );
  }

  pub empty-IsValidTable : IsValidTable (record { insertions = []; deletions = [] })
  unfolding has keys
  empty-IsValidTable = record {
    unique = tt;
    coded = tt;
    coded_deletions = tt;
    disjoint = λ s h. cc;
  }

module _ (hex : Hex) (level : Level) where
  abbrev pub IsValid : CachedLevelDb level → Type 0
  IsValid c = (t : ℕ) → IsValidTable hex (c.cached t)

  -- What a table holds once the cached changes are applied: an insertion, else nothing if the
  -- key is deleted, else the committed value.
  unfoldable pub view : CachedLevelDb level → ℕ → Bytes → Option Bytes
  view c t k = elim (find (hex.encode_key k) (c.cached t).insertions) [
    | some entry ↦ some entry
    | none ↦
        if has (hex.encode_key k) (c.cached t).deletions then none else Level.get_raw level c.db t k
  ]

  set_cached-IsValid :
      (c : CachedLevelDb level) (t : ℕ) (new : TableCache)
      → IsValid c
      → IsValidTable hex new
      → IsValid (set_cached hex level c t new)
  set_cached-IsValid c t new h v u =
      elim (u == t) as (λ b. IsValidTable hex (if b then new else c.cached u)) [
        | true ↦ v
        | false ↦ h u
      ]

  pub create-IsValid : (d : LevelDb level) → IsValid (create hex level d)
  unfolding create
  create-IsValid d t = empty-IsValidTable hex

  pub reset_cache-IsValid : (c : CachedLevelDb level) → IsValid (reset_cache hex level c)
  unfolding reset_cache
  reset_cache-IsValid c t = empty-IsValidTable hex

  -- The cache entry that `putRaw` and `del` leave.
  abbrev pub put_table : Bytes → Bytes → TableCache → TableCache
  put_table k v c = record {
    insertions = insert (hex.encode_key k) v c.insertions;
    deletions = remove (hex.encode_key k) c.deletions;
  }

  abbrev pub del_table : Bytes → TableCache → TableCache
  del_table k c = record {
    insertions = erase (hex.encode_key k) c.insertions;
    deletions = add (hex.encode_key k) c.deletions;
  }

  pub put_raw-inv :
      (c c' : CachedLevelDb level) (t : ℕ) (k v : Bytes)
      → put_raw hex level c t k v ≡ ok c'
      → (is_table t ≡ true) × (set_cached hex level c t (put_table k v (c.cached t)) ≡ c')
  unfolding put_raw
  put_raw-inv c c' t k v e = elim (Bool-cases (is_table t)) [
    | inl known ↦ (known, ok_injective (rw known at e))
    | inr unknown ↦ absurd (ok-ne-thrown (rw unknown at e))
  ]

  pub del-inv :
      (c c' : CachedLevelDb level) (t : ℕ) (k : Bytes)
      → del hex level c t k ≡ ok c'
      → (is_table t ≡ true) × (set_cached hex level c t (del_table k (c.cached t)) ≡ c')
  unfolding del
  del-inv c c' t k e = elim (Bool-cases (is_table t)) [
    | inl known ↦ (known, ok_injective (rw known at e))
    | inr unknown ↦ absurd (ok-ne-thrown (rw unknown at e))
  ]

  -- A `putRaw` that does not throw keeps the cache valid.
  pub put_raw-IsValid :
      (c c' : CachedLevelDb level) (t : ℕ) (k v : Bytes)
      → IsValid c
      → put_raw hex level c t k v ≡ ok c'
      → IsValid c'
  put_raw-IsValid c c' t k v h e = subst IsValid (put_raw-inv c c' t k v e).1 (
      set_cached-IsValid c t (put_table k v (c.cached t)) h
        (put-IsValidTable hex k v (c.cached t) (h t)))

  -- A `del` that does not throw keeps the cache valid.
  pub del-IsValid :
      (c c' : CachedLevelDb level) (t : ℕ) (k : Bytes)
      → IsValid c
      → del hex level c t k ≡ ok c'
      → IsValid c'
  del-IsValid c c' t k h e = subst IsValid (del-inv c c' t k e).1 (
      set_cached-IsValid c t (del_table k (c.cached t)) h
        (del-IsValidTable hex k (c.cached t) (h t)))
