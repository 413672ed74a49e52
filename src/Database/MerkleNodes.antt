-- ===== src/Database/MerkleNodes.antt =====
-- `getMerkleNode` and `putMerkleNode` of the cached database (AbstractLevelDb.ts).
use carmentis_node.Base.{
  ℕ, ◌≡◌, refl, true, Option, none, some, Bytes, arith, bytes_eq, if◌then◌else◌, Result, ok,
}
use carmentis_node.Base.Maps.{find, find-insert}
use carmentis_node.Database.Level
use carmentis_node.Database.Level.{Level, is_table}
use carmentis_node.Database.Cache.{Hex, CachedLevelDb, get_raw, put_raw, set_cached}
use carmentis_node.Database.Cache.Valid.{encode_injective, put_table}

-- `LevelDbTable.MERKLE_NODE`
abbrev pub merkle_node_table : ℕ
merkle_node_table = 0x11

merkle_node_table-is_table : is_table merkle_node_table ≡ true
unfolding is_table
merkle_node_table-is_table = refl

module _ (hex : Hex) (level : Level) where
  -- `getMerkleNode`
  pub get_merkle_node : CachedLevelDb level → Bytes → Result (Option Bytes)
  get_merkle_node c key = get_raw hex level c merkle_node_table key

  -- `putMerkleNode`
  pub put_merkle_node : CachedLevelDb level → Bytes → Bytes → Result (CachedLevelDb level)
  put_merkle_node c key node_hash = put_raw hex level c merkle_node_table key node_hash

  -- Neither call throws on a cached database. After a node was put, its key gives the new hash, and
  -- any other key what it gave before.
  pub get_merkle_node-put_merkle_node :
      (c : CachedLevelDb level) (k j v : Bytes)
      → (c' : CachedLevelDb level) × (before : Option Bytes) × (put_merkle_node c k v ≡ ok c')
        × (get_merkle_node c j ≡ ok before)
        × (get_merkle_node c' j ≡ ok (if bytes_eq k j then some v else before))
  unfolding get_merkle_node put_merkle_node get_raw put_raw
  get_merkle_node-put_merkle_node c k j v =
      let known = merkle_node_table-is_table in
      let cache = c.cached merkle_node_table in
      let old : Option Bytes = elim (find (hex.encode_key j) cache.insertions) [
        | some entry ↦ some entry
        | none ↦ Level.get_raw level c.db merkle_node_table j
      ] in
      (
        set_cached hex level c merkle_node_table (put_table hex level k v cache),
        old,
        rw known refl,
        rw known refl,
        rw known (
            ground (
              arith,
              find-insert (hex.encode_key k) (hex.encode_key j) v cache.insertions,
              encode_injective hex k j,
            )),
      )
