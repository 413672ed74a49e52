-- ===== src/Database/Level.antt =====
-- The persistent tables: LevelDb.ts over the package `level`, with LevelDbTable.ts.
use carmentis_node.Base.{
  ℕ, ◌≡◌, Bool, true, false, ◌&&◌, ◌||◌, Option, none, some, List, [], ◌∷◌, ◌++◌, Bytes, bytes_eq,
  ◌==◌, if◌then◌else◌, Result, ok, thrown,
}
use carmentis_node.Base.Maps.{Map, find, keys}

-- The values of `LevelDbTable`.
abbrev pub table_ids : List ℕ
table_ids =
    0x00 ∷ 0x01 ∷ 0x02 ∷ 0x03 ∷ 0x04 ∷ 0x05 ∷ 0x06 ∷ 0x07 ∷ 0x08 ∷ 0x09 ∷ 0x0a ∷ 0x0b ∷ 0x0c ∷ 0x0d
    ∷ 0x0e ∷ 0x0f ∷ 0x10 ∷ 0x11 ∷ 0x12 ∷ 0x13 ∷ []

abbrev pub mem_table : ℕ → List ℕ → Bool
mem_table t [] = false
mem_table t (u ∷ us) = (u == t) || mem_table t us

unfoldable pub is_table : ℕ → Bool
is_table t = mem_table t table_ids

-- One operation of a batch, on a sublevel.
pub data Op : Type 0 where
  put : ℕ → Bytes → Bytes → Op
  del : ℕ → Bytes → Op

-- What the operations of a batch, in order, make of the value at a key.
abbrev pub effect : List Op → ℕ → Bytes → Option Bytes → Option Bytes
effect [] t k old = old
effect (put u j v ∷ ops) t k old = effect ops t k (if (u == t) && bytes_eq j k then some v else old)
effect (del u j ∷ ops) t k old = effect ops t k (if (u == t) && bytes_eq j k then none else old)

-- What the node relies on of the package `level`: reads, iteration over a sublevel, and a batch
-- that is applied whole, in order, or throws and is not applied.
pub record Level : Type 1 where
  pub Store : Type 0
  pub get : Store → ℕ → Bytes → Option Bytes
  pub entries : Store → ℕ → Map Bytes
  pub write : Store → List Op → Option Store
  pub get-entries : (s : Store) (t : ℕ) (k : Bytes) → find k (entries s t) ≡ get s t k
  pub get-write :
      (s s' : Store) (ops : List Op) (t : ℕ) (k : Bytes)
      → write s ops ≡ some s'
      → get s' t k ≡ effect ops t k (get s t k)

-- `LevelDb`: its sublevels are there once `initialize` has run.
pub record LevelDb (level : Level) : Type 0 where
  pub store : level.Store
  pub initialized : Bool

module _ (level : Level) where
  -- `LevelDb.initialize`
  pub initialize : LevelDb level → LevelDb level
  initialize d = record d { initialized = true }

  -- `this.sub.get(tableId) !== undefined`
  abbrev pub has_sub : LevelDb level → ℕ → Bool
  has_sub d t = d.initialized && is_table t

  -- `LevelDb.getRaw`
  unfoldable pub get_raw : LevelDb level → ℕ → Bytes → Option Bytes
  get_raw d t k = if has_sub d t then level.get d.store t k else none

  -- `LevelDb.getKeys`, with no limit
  unfoldable pub get_keys : LevelDb level → ℕ → List Bytes
  get_keys d t = if has_sub d t then keys (level.entries d.store t) else []

  -- `LevelDb.getFullTable`: `query` throws on an undefined table.
  unfoldable pub get_full_table : LevelDb level → ℕ → Result (Map Bytes)
  get_full_table d t = if has_sub d t then ok (level.entries d.store t) else thrown

  abbrev pub puts : ℕ → Map Bytes → List Op
  puts t [] = []
  puts t ((k, v) ∷ l) = put t k v ∷ puts t l

  abbrev pub dels : ℕ → List Bytes → List Op
  dels t [] = []
  dels t (k ∷ l) = del t k ∷ dels t l

  -- `batch.put` and `batch.del` of `LevelDb.getBatch`
  unfoldable pub batch_put : LevelDb level → ℕ → Map Bytes → List Op → Result (List Op)
  batch_put d t l batch = if has_sub d t then ok (batch ++ puts t l) else thrown

  unfoldable pub batch_del : LevelDb level → ℕ → List Bytes → List Op → Result (List Op)
  batch_del d t l batch = if has_sub d t then ok (batch ++ dels t l) else thrown

  -- `batch.write`: an error is caught, logged and returned (`false` here).
  unfoldable pub batch_write : LevelDb level → List Op → LevelDb level × Bool
  batch_write d batch = elim (level.write d.store batch) [
    | some s ↦ (record d { store = s }, true)
    | none ↦ (d, false)
  ]
