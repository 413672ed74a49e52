-- ===== src/RadixTree/Write.antt =====
-- Writes to a radix tree (RadixTree.ts).
use carmentis_node.Base.{
  ℕ, zero, suc, ◌+◌, ◌-◌, ◌*◌, ◌/◌, ◌^◌, Option, none, some, List, Bytes, ◌==◌, if◌then◌else◌,
  get_or, set, take, replicate,
}
use carmentis_node.Base.Effects.{Action, pure, lift, read, modify, ◌>>◌, ◌>>=◌}
use carmentis_node.Database.Stores.{Table, Database}
use carmentis_node.RadixTree.Nodes.{
  RadixSdk, put_part, mask_of, nibble_at, with_bit, rest_length, standard_node, early_leaf,
  leaf_key, leaf_value,
}
use carmentis_node.RadixTree.Read.{get_from_storage, get_root_hash}

module _ (sdk : RadixSdk) (db : Database) (table : Table) where
  -- `setToStorage` and `removeFromStorage`
  abbrev pub set_to_storage : Bytes → Bytes → Action db.Store (Unit {0})
  set_to_storage hash value = modify (λ s. db.put_raw s table hash value)

  abbrev pub remove_from_storage : Bytes → Action db.Store (Unit {0})
  remove_from_storage hash = modify (λ s. db.del s table hash)

  -- `setRootHash`
  abbrev pub set_root_hash : Bytes → Action db.Store (Unit {0})
  set_root_hash root_hash = set_to_storage sdk.root_anchoring_hash root_hash

  -- A call of `write` one level down: key, value and hash of the node.
  abbrev pub Write : Type 0
  Write = Bytes → Bytes → Option Bytes → Action db.Store Bytes

  -- An early leaf with another key becomes a standard node with one child.
  unfoldable pub split_leaf : Write → ℕ → Bytes → Action db.Store (ℕ × List (Option Bytes))
  split_leaf write_below depth node = do
    let index = nibble_at node 2 depth
    prev_key ← lift (leaf_key sdk depth node)
    hash ← write_below prev_key (leaf_value sdk depth node) none
    pure (2 ^ index, set (replicate 16 none) index (some hash))

  -- The `update` of a standard node.
  unfoldable pub update_child :
      Write → ℕ → Bytes → Bytes → ℕ → List (Option Bytes) → Action db.Store Bytes
  update_child write_below depth key value msk hash_list = do
    let nibble = nibble_at key (depth / 2) depth
    hash ← write_below key value (get_or hash_list nibble none)
    lift (standard_node sdk (with_bit msk nibble) (set hash_list nibble (some hash)))

  -- The new bytes of a node that exists.
  unfoldable pub update_node : Write → ℕ → Bytes → Bytes → Bytes → Action db.Store Bytes
  update_node write_below depth key value node =
      let msk = mask_of node in
      if msk == 0
      then (if sdk.key_difference depth key node
          then (do
            (msk', hash_list) ← split_leaf write_below depth node
            update_child write_below depth key value msk' hash_list)
          else lift (put_part node (2 + rest_length sdk depth) value))
      else update_child write_below depth key value msk (sdk.get_hash_list msk node)

  -- The previous entry is removed, the new one is saved.
  unfoldable pub replace_node : Option Bytes → Bytes → Action db.Store Bytes
  replace_node none node = do
    let new_hash = take sdk.hash_size (sdk.sha256 node)
    set_to_storage new_hash node
    pure new_hash
  replace_node (some node_hash) node = do
    remove_from_storage node_hash
    let new_hash = take sdk.hash_size (sdk.sha256 node)
    set_to_storage new_hash node
    pure new_hash

  -- The new bytes of a node, which may not exist.
  unfoldable pub node_bytes : Write → ℕ → Bytes → Bytes → Option Bytes → Action db.Store Bytes
  node_bytes write_below depth key value none = lift (early_leaf sdk depth key value)
  node_bytes write_below depth key value (some hash) = do
    found ← read (λ s. get_from_storage sdk db table s hash)
    node ← lift found
    update_node write_below depth key value node

  -- `write`, with the number of nibbles below the depth
  unfoldable pub write : ℕ → Write
  write zero key value node_hash = pure value
  write (suc below) key value node_hash = do
    node ← node_bytes (write below) (sdk.hash_size * 2 - suc below) key value node_hash
    replace_node node_hash node

  -- `set`
  unfoldable pub set_pair : Bytes → Bytes → Action db.Store (Unit {0})
  set_pair key value = do
    found ← read (λ s. get_root_hash sdk db table s)
    root_hash ← lift found
    new_root_hash ← write (sdk.hash_size * 2) key value (some root_hash)
    set_root_hash new_root_hash
