-- ===== src/Database/Cache.antt =====
-- The write cache in front of the persistent tables: CachedLevelDb.ts.
pub mod Valid
pub mod Reads
pub mod Commit
pub mod Ends
use carmentis_node.Base.{
  ℕ, ◌≡◌, Bool, true, false, not, ◌&&◌, ◌||◌, Option, none, some, List, [], ◌∷◌, ◌++◌, Bytes, ◌==◌,
  if◌then◌else◌, Result, ok, thrown, ◌>>=◌,
}
use carmentis_node.Base.Maps.{Map, find, insert, erase, keep, keys, has_key, has, add, remove}
use carmentis_node.Database.Level
use carmentis_node.Database.Level.{Level, LevelDb, Op, table_ids, is_table}

-- `Buffer.from(key).toString('hex')` and its inverse, which belong to Node.js.
pub record Hex : Type 0 where
  pub encode_key : Bytes → Bytes
  pub decode_key : Bytes → Bytes
  pub decode-encode : (k : Bytes) → decode_key (encode_key k) ≡ k

-- The cached data of one table, under encoded keys.
pub record TableCache : Type 0 where
  pub insertions : Map Bytes
  pub deletions : List Bytes

-- `CachedLevelDb`. Both maps have an entry for each table id of `LevelDbTable`, from the
-- constructor on, and for no other.
pub record CachedLevelDb (level : Level) : Type 0 where
  pub db : LevelDb level
  pub cached : ℕ → TableCache

abbrev pub empty_cache : TableCache
empty_cache = record { insertions = []; deletions = [] }

module _ (hex : Hex) (level : Level) where
  -- `getCachedDataByTableIdOrFail`
  unfoldable pub cached_data_or_fail : CachedLevelDb level → ℕ → Result TableCache
  cached_data_or_fail c t = if is_table t then ok (c.cached t) else thrown

  abbrev pub set_cached : CachedLevelDb level → ℕ → TableCache → CachedLevelDb level
  set_cached c t new = record c { cached = λ u. if u == t then new else c.cached u }

  -- The constructor.
  unfoldable pub create : LevelDb level → CachedLevelDb level
  create d = record { db = d; cached = λ t. empty_cache }

  -- `resetCache`
  unfoldable pub reset_cache : CachedLevelDb level → CachedLevelDb level
  reset_cache c = record c { cached = λ t. empty_cache }

  -- `getRaw`
  unfoldable pub get_raw : CachedLevelDb level → ℕ → Bytes → Result (Option Bytes)
  unfolding cached_data_or_fail
  get_raw c t k = do
    cache ← cached_data_or_fail c t
    ok (elim (find (hex.encode_key k) cache.insertions) [
      | some entry ↦ some entry
      | none ↦ Level.get_raw level c.db t k
    ])

  -- `putRaw`
  unfoldable pub put_raw : CachedLevelDb level → ℕ → Bytes → Bytes → Result (CachedLevelDb level)
  unfolding cached_data_or_fail
  put_raw c t k v = do
    cache ← cached_data_or_fail c t
    let key = hex.encode_key k
    ok (
        set_cached c t (record {
          insertions = insert key v cache.insertions;
          deletions = remove key cache.deletions;
        }))

  -- `del`
  unfoldable pub del : CachedLevelDb level → ℕ → Bytes → Result (CachedLevelDb level)
  unfolding cached_data_or_fail
  del c t k = do
    cache ← cached_data_or_fail c t
    let key = hex.encode_key k
    ok (
        set_cached c t
          (record { insertions = erase key cache.insertions; deletions = add key cache.deletions }))

  -- The test of the filters in `getKeys` and `getFullTable`.
  abbrev pub is_unmodified : TableCache → Bytes → Bool
  is_unmodified cache k =
      not (has_key (hex.encode_key k) cache.insertions)
      && not (has (hex.encode_key k) cache.deletions)

  abbrev pub decode_keys : List Bytes → List Bytes
  decode_keys [] = []
  decode_keys (s ∷ l) = hex.decode_key s ∷ decode_keys l

  abbrev pub decode_entries : Map Bytes → Map Bytes
  decode_entries [] = []
  decode_entries ((s, v) ∷ m) = (hex.decode_key s, v) ∷ decode_entries m

  abbrev pub filter_keys : (Bytes → Bool) → List Bytes → List Bytes
  filter_keys p [] = []
  filter_keys p (k ∷ l) = let rest = filter_keys p l in if p k then k ∷ rest else rest

  -- `getKeys`
  unfoldable pub get_keys : CachedLevelDb level → ℕ → Result (List Bytes)
  unfolding cached_data_or_fail
  get_keys c t = do
    cache ← cached_data_or_fail c t
    let committed = Level.get_keys level c.db t
    ok (decode_keys (keys cache.insertions) ++ filter_keys (is_unmodified cache) committed)

  -- `getFullTable`
  unfoldable pub get_full_table : CachedLevelDb level → ℕ → Result (Map Bytes)
  unfolding cached_data_or_fail
  get_full_table c t = do
    cache ← cached_data_or_fail c t
    committed ← Level.get_full_table level c.db t
    ok (decode_entries cache.insertions ++ keep (is_unmodified cache) committed)

  -- The loop of `commit` over the tables, which fills the batch.
  unfoldable pub fill_batch : CachedLevelDb level → List ℕ → List Op → Result (List Op)
  unfolding cached_data_or_fail
  fill_batch c [] batch = ok batch
  fill_batch c (t ∷ ts) batch = do
    cache ← cached_data_or_fail c t
    batch' ← Level.batch_put level c.db t (decode_entries cache.insertions) batch
    batch'' ← Level.batch_del level c.db t (decode_keys cache.deletions) batch'
    fill_batch c ts batch''

  -- `commit`: what `batch.write` returns is not looked at.
  unfoldable pub commit : CachedLevelDb level → Result (CachedLevelDb level)
  unfolding reset_cache
  commit c = do
    batch ← fill_batch c table_ids []
    ok (reset_cache (record c { db = (Level.batch_write level c.db batch).0 }))
