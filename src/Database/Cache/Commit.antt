-- ===== src/Database/Cache/Commit.antt =====
-- `CachedLevelDb.commit`: the batch that it builds, and the tables that it leaves.
use mathlib.Core.Option.{or_else}
use carmentis_node.Base.{
  ℕ, ◌≡◌, refl, true, false, ◌&&◌, Option, none, some, List, [], ◌∷◌, ◌++◌, Bytes, arith, ◌==◌,
  ==_iff, bytes_eq, bytes_eq_iff, if◌then◌else◌, ok, Bool-cases, inl, inr, ok_injective,
  Option-cases,
}
use carmentis_node.Base.Maps.{Map, find, keys, has, IsUnique}
use carmentis_node.Database.Level
use carmentis_node.Database.Level.{
  Level, LevelDb, Op, put, del, effect, is_table, mem_table, table_ids, puts, dels,
}
use carmentis_node.Database.Cache.{
  Hex, TableCache, CachedLevelDb, decode_keys, decode_entries, fill_batch, commit, reset_cache,
}
use carmentis_node.Database.Cache.Valid.{IsCoded, IsValidTable, IsValid, view}

effect-append :
    (a b : List Op) (t : ℕ) (k : Bytes) (old : Option Bytes)
    → effect (a ++ b) t k old ≡ effect b t k (effect a t k old)
effect-append [] b t k old = refl
effect-append (put u j v ∷ a) b t k old = effect-append a b t k _
effect-append (del u j ∷ a) b t k old = effect-append a b t k _

module _ (hex : Hex) (level : Level) where
  effect-puts :
      (u t : ℕ) (k : Bytes) (m : Map Bytes) (old : Option Bytes)
      → IsCoded hex (keys m)
      → IsUnique m
      → effect (puts level u (decode_entries hex level m)) t k old
        ≡ (if u == t then or_else (find (hex.encode_key k) m) old else old)
  unfolding find keys or_else
  effect-puts u t k [] old h unique = ground arith
  effect-puts u t k ((s, v) ∷ m) old h unique = ground (
    arith,
    effect-puts u t k m (if (u == t) && bytes_eq (hex.decode_key s) k then some v else old) h.1
        unique.1,
    bytes_eq_iff (hex.decode_key s) k,
    bytes_eq_iff s (hex.encode_key k),
    hex.decode-encode k,
  )

  effect-dels :
      (u t : ℕ) (k : Bytes) (l : List Bytes) (old : Option Bytes)
      → IsCoded hex l
      → effect (dels level u (decode_keys hex level l)) t k old
        ≡ (if (u == t) && has (hex.encode_key k) l then none else old)
  unfolding has
  effect-dels u t k [] old h = ground arith
  effect-dels u t k (s ∷ l) old h = ground (
    arith,
    effect-dels u t k l (if (u == t) && bytes_eq (hex.decode_key s) k then none else old) h.1,
    bytes_eq_iff (hex.decode_key s) k,
    bytes_eq_iff s (hex.encode_key k),
    hex.decode-encode k,
  )

  -- The cached changes of one table, on top of a committed value.
  abbrev overlay : TableCache → Bytes → Option Bytes → Option Bytes
  overlay c k old = elim (find (hex.encode_key k) c.insertions) [
    | some entry ↦ some entry
    | none ↦ if has (hex.encode_key k) c.deletions then none else old
  ]

  effect_table :
      (u t : ℕ) (k : Bytes) (c : TableCache) (batch : List Op) (old : Option Bytes)
      → IsValidTable hex c
      → effect
          ((batch ++ puts level u (decode_entries hex level c.insertions))
            ++ dels level u (decode_keys hex level c.deletions))
          t
          k
          old
        ≡ (if u == t then overlay c k (effect batch t k old) else effect batch t k old)
  unfolding or_else
  effect_table u t k c batch old h =
      rw (effect-append (batch ++ puts level u (decode_entries hex level c.insertions))) (
        rw (effect-append batch) (
          ground (
            arith,
            effect-puts u t k c.insertions (effect batch t k old) h.coded h.unique,
            effect-dels u t k c.deletions
                (effect (puts level u (decode_entries hex level c.insertions)) t k
                  (effect batch t k old))
                h.coded_deletions,
            h.disjoint (hex.encode_key k),
          )))

  -- One round of the loop that did not throw.
  fill_batch-inv :
      (c : CachedLevelDb level) (u : ℕ) (us : List ℕ) (batch result : List Op)
      → fill_batch hex level c (u ∷ us) batch ≡ ok result
      → (Level.has_sub level c.db u ≡ true)
        × (fill_batch hex level c us (
              (batch ++ puts level u (decode_entries hex level (c.cached u).insertions))
              ++ dels level u (decode_keys hex level (c.cached u).deletions))
            ≡ ok result)
  unfolding fill_batch Level.batch_put Level.batch_del
  fill_batch-inv c u us batch result e = elim (Bool-cases (Level.has_sub level c.db u)) [
    | inl known ↦ ground arith
    | inr unknown ↦ ground arith
  ]

  abbrev IsUniqueTables : List ℕ → Type 0
  IsUniqueTables [] = Unit
  IsUniqueTables (t ∷ ts) = (mem_table t ts ≡ false) × IsUniqueTables ts

  table_ids-IsUniqueTables : IsUniqueTables table_ids
  table_ids-IsUniqueTables = ground arith

  fill_batch-effect :
      (c : CachedLevelDb level) (ts : List ℕ) (batch result : List Op) (t : ℕ) (k : Bytes)
      (old : Option Bytes)
      → IsValid hex level c
      → IsUniqueTables ts
      → fill_batch hex level c ts batch ≡ ok result
      → effect result t k old ≡ (
          if mem_table t ts
          then overlay (c.cached t) k (effect batch t k old)
          else effect batch t k old)
  unfolding fill_batch
  fill_batch-effect c [] batch result t k old valid unique e = rw (ok_injective e)
  fill_batch-effect c (u ∷ us) batch result t k old valid unique e = ground (
    arith,
    fill_batch-effect c us
        ((batch ++ puts level u (decode_entries hex level (c.cached u).insertions))
          ++ dels level u (decode_keys hex level (c.cached u).deletions))
        result t k old valid unique.1 (fill_batch-inv c u us batch result e).1,
    effect_table u t k (c.cached u) batch old (valid u),
    ==_iff u t,
  )

  fill_batch-effect_mem :
      (c : CachedLevelDb level) (ts : List ℕ) (result : List Op) (t : ℕ) (k : Bytes)
      (old : Option Bytes)
      → IsValid hex level c
      → IsUniqueTables ts
      → fill_batch hex level c ts [] ≡ ok result
      → mem_table t ts ≡ true
      → effect result t k old ≡ overlay (c.cached t) k old
  fill_batch-effect_mem c ts result t k old valid unique e mem =
      ground (arith, fill_batch-effect c ts [] result t k old valid unique e)

  -- The whole batch brings each table to what it should hold.
  batch-overlay :
      (c : CachedLevelDb level) (result : List Op) (t : ℕ) (k : Bytes) (old : Option Bytes)
      → IsValid hex level c
      → fill_batch hex level c table_ids [] ≡ ok result
      → is_table t ≡ true
      → effect result t k old ≡ overlay (c.cached t) k old
  unfolding is_table
  batch-overlay c result t k old valid e known =
      fill_batch-effect_mem c table_ids result t k old valid table_ids-IsUniqueTables e known

  initialized :
      (c : CachedLevelDb level) (result : List Op)
      → fill_batch hex level c table_ids [] ≡ ok result
      → c.db.initialized ≡ true
  initialized c result e = ground (arith, (fill_batch-inv c 0 _ [] result e).0)

  -- A `commit` that does not throw and whose batch is written, on a valid cache: what is committed
  -- at each key of each table is what the table should hold before, and the table that the cache
  -- stands for is the same as before.
  pub commit-written :
      (c c' : CachedLevelDb level) (batch : List Op) (t : ℕ) (k : Bytes)
      → IsValid hex level c
      → fill_batch hex level c table_ids [] ≡ ok batch
      → (Level.batch_write level c.db batch).1 ≡ true
      → commit hex level c ≡ ok c'
      → is_table t ≡ true
      → (Level.get_raw level c'.db t k ≡ view hex level c t k)
        × (view hex level c' t k ≡ view hex level c t k)
  unfolding commit view Level.get_raw Level.batch_write has find
  commit-written c c' batch t k valid filled written e known =
      elim (Option-cases (level.write c.db.store batch)) [
        | inl failed ↦ ground arith
        | inr (s, w) ↦ rw (← ok_injective (rw filled at e)) (
            ground (
              arith,
              initialized c batch filled,
              level.get-write c.db.store s batch t k w,
              batch-overlay c batch t k (level.get c.db.store t k) valid filled known,
            ))
      ]

  -- A `commit` whose batch was filled but cannot be written does not throw: it drops every cached
  -- change and leaves the database as it was.
  pub commit-lost :
      (c : CachedLevelDb level) (batch : List Op)
      → fill_batch hex level c table_ids [] ≡ ok batch
      → (Level.batch_write level c.db batch).1 ≡ false
      → commit hex level c ≡ ok (reset_cache hex level c)
  unfolding commit Level.batch_write
  commit-lost c batch filled failed = rw filled (ground arith)
