-- ===== src/Database/Cache/Reads.antt =====
-- What the operations of the write cache do to the table that it stands for, and what its reads
-- return of it.
use mathlib.Core.Option.{or_else}
use carmentis_node.Base.{
  ℕ, ◌≡◌, refl, Bool, true, false, ◌&&◌, none, some, List, [], ◌∷◌, Bytes, arith, ◌==◌, ==_iff,
  bytes_eq, bytes_eq_iff, if◌then◌else◌, is_some, ok,
}
use carmentis_node.Base.Maps.{
  Map, find, keep, keys, has_key, has, find-insert, find-erase, find-append, find-keep, has-add,
  has-remove, has-append, has-keys,
}
use carmentis_node.Database.Level
use carmentis_node.Database.Level.{Level, LevelDb, is_table}
use carmentis_node.Database.Cache.{
  Hex, CachedLevelDb, set_cached, get_raw, put_raw, del, get_keys, get_full_table, is_unmodified,
  decode_keys, decode_entries, filter_keys,
}
use carmentis_node.Database.Cache.Valid.{
  encode_injective, IsCoded, IsValid, view, put_table, del_table, put_raw-inv, del-inv,
}

module _ (hex : Hex) (level : Level) where
  view-put_table :
      (c : CachedLevelDb level) (t u : ℕ) (k j v : Bytes)
      → view hex level (set_cached hex level c t (put_table hex level k v (c.cached t))) u j
        ≡ (if (u == t) && bytes_eq k j then some v else view hex level c u j)
  unfolding view
  view-put_table c t u k j v = ground (
    arith,
    find-insert (hex.encode_key k) (hex.encode_key j) v (c.cached t).insertions,
    has-remove (hex.encode_key k) (hex.encode_key j) (c.cached t).deletions,
    encode_injective hex k j,
    ==_iff u t,
  )

  view-del_table :
      (c : CachedLevelDb level) (t u : ℕ) (k j : Bytes)
      → view hex level (set_cached hex level c t (del_table hex level k (c.cached t))) u j
        ≡ (if (u == t) && bytes_eq k j then none else view hex level c u j)
  unfolding view
  view-del_table c t u k j = ground (
    arith,
    find-erase (hex.encode_key k) (hex.encode_key j) (c.cached t).insertions,
    has-add (hex.encode_key k) (hex.encode_key j) (c.cached t).deletions,
    encode_injective hex k j,
    ==_iff u t,
  )

  -- A `putRaw` that does not throw sets the value at its key of its table, and changes nothing
  -- else.
  pub view-put_raw :
      (c c' : CachedLevelDb level) (t u : ℕ) (k j v : Bytes)
      → put_raw hex level c t k v ≡ ok c'
      → view hex level c' u j ≡ (if (u == t) && bytes_eq k j then some v else view hex level c u j)
  view-put_raw c c' t u k j v e =
      rw (← (put_raw-inv hex level c c' t k v e).1) (view-put_table c t u k j v)

  -- A `del` that does not throw removes its key from its table, and changes nothing else.
  pub view-del :
      (c c' : CachedLevelDb level) (t u : ℕ) (k j : Bytes)
      → del hex level c t k ≡ ok c'
      → view hex level c' u j ≡ (if (u == t) && bytes_eq k j then none else view hex level c u j)
  view-del c c' t u k j e = rw (← (del-inv hex level c c' t k e).1) (view-del_table c t u k j)

  -- `getRaw` on a table of the database, at a key that is not among the cached deletions, returns
  -- what the table should hold.
  pub get_raw-view :
      (c : CachedLevelDb level) (t : ℕ) (k : Bytes)
      → is_table t ≡ true
      → has (hex.encode_key k) (c.cached t).deletions ≡ false
      → get_raw hex level c t k ≡ ok (view hex level c t k)
  unfolding get_raw view
  get_raw-view c t k known kept = ground arith

  -- `getRaw` after a `putRaw` that does not throw, at the same key of the same table: the new
  -- value.
  pub get_raw-put_raw :
      (c c' : CachedLevelDb level) (t : ℕ) (k v : Bytes)
      → put_raw hex level c t k v ≡ ok c'
      → get_raw hex level c' t k ≡ ok (some v)
  unfolding get_raw
  get_raw-put_raw c c' t k v e =
      let (known, left) = put_raw-inv hex level c c' t k v e in
      rw (← left) (
        ground (
          arith,
          known,
          ==_iff t t,
          bytes_eq_iff (hex.encode_key k) (hex.encode_key k),
          find-insert (hex.encode_key k) (hex.encode_key k) v (c.cached t).insertions,
        ))

  -- `getRaw` after a `del` that does not throw, at the same key of the same table: the value
  -- committed before.
  pub get_raw-del :
      (c c' : CachedLevelDb level) (t : ℕ) (k : Bytes)
      → del hex level c t k ≡ ok c'
      → get_raw hex level c' t k ≡ ok (Level.get_raw level c.db t k)
  unfolding get_raw
  get_raw-del c c' t k e =
      let (known, left) = del-inv hex level c c' t k e in
      rw (← left) (
        ground (
          arith,
          known,
          ==_iff t t,
          bytes_eq_iff (hex.encode_key k) (hex.encode_key k),
          find-erase (hex.encode_key k) (hex.encode_key k) (c.cached t).insertions,
        ))

  find-decode_entries :
      (k : Bytes) (m : Map Bytes)
      → IsCoded hex (keys m)
      → find k (decode_entries hex level m) ≡ find (hex.encode_key k) m
  unfolding find keys
  find-decode_entries k [] h = refl
  find-decode_entries k ((s, v) ∷ m) h = ground (
    arith,
    bytes_eq_iff (hex.decode_key s) k,
    bytes_eq_iff s (hex.encode_key k),
    hex.decode-encode k,
    find-decode_entries k m,
  )

  has-decode_keys :
      (k : Bytes) (l : List Bytes)
      → IsCoded hex l
      → has k (decode_keys hex level l) ≡ has (hex.encode_key k) l
  unfolding has
  has-decode_keys k [] h = refl
  has-decode_keys k (s ∷ l) h = ground (
    arith,
    bytes_eq_iff (hex.decode_key s) k,
    bytes_eq_iff s (hex.encode_key k),
    hex.decode-encode k,
    has-decode_keys k l,
  )

  has-filter_keys :
      (p : Bytes → Bool) (k : Bytes) (l : List Bytes)
      → has k (filter_keys hex level p l) ≡ has k l && p k
  unfolding has
  has-filter_keys p k [] = refl
  has-filter_keys p k (j ∷ l) = ground (arith, bytes_eq_iff j k, has-filter_keys p k l)

  -- `getFullTable` on a valid cache, where it does not throw, lists the table with the cached
  -- changes applied: looking a key up in the list gives what the table should hold.
  pub get_full_table-view :
      (c : CachedLevelDb level) (t : ℕ) (k : Bytes) (table : Map Bytes)
      → IsValid hex level c
      → get_full_table hex level c t ≡ ok table
      → find k table ≡ view hex level c t k
  unfolding get_full_table view Level.get_full_table Level.get_raw has_key or_else
  get_full_table-view c t k table valid e =
      let cache = c.cached t in
      let committed = level.entries c.db.store t in
      ground (
        arith,
        find-append k (decode_entries hex level cache.insertions)
            (keep (is_unmodified hex level cache) committed),
        find-decode_entries k cache.insertions (valid t).coded,
        find-keep (is_unmodified hex level cache) k committed,
        level.get-entries c.db.store t k,
      )

  -- `getKeys` on a valid cache, where it does not throw, lists exactly the keys at which the table
  -- should hold something.
  pub get_keys-view :
      (c : CachedLevelDb level) (t : ℕ) (k : Bytes) (listed : List Bytes)
      → IsValid hex level c
      → get_keys hex level c t ≡ ok listed
      → has k listed ≡ is_some (view hex level c t k)
  unfolding get_keys view Level.get_keys Level.get_raw has_key has
  get_keys-view c t k listed valid e =
      let cache = c.cached t in
      let committed = level.entries c.db.store t in
      ground (
        arith,
        has-append k (decode_keys hex level (keys cache.insertions))
            (filter_keys hex level (is_unmodified hex level cache) (Level.get_keys level c.db t)),
        has-decode_keys k (keys cache.insertions) (valid t).coded,
        has-keys (hex.encode_key k) cache.insertions,
        has-filter_keys (is_unmodified hex level cache) k (Level.get_keys level c.db t),
        has-keys k committed,
        level.get-entries c.db.store t k,
      )
