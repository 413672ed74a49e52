-- ===== src/RadixTree/Read.antt =====
-- Reads of a radix tree, with their proofs (RadixTree.ts).
use carmentis_node.Base.{
  ℕ, zero, suc, ◌+◌, ◌-◌, ◌*◌, ◌/◌, Option, none, some, List, [], ◌∷◌, Bytes, ◌==◌, if◌then◌else◌,
  Result, ok, thrown, ◌>>=◌, get_or, drop,
}
use carmentis_node.Database.Stores.{Table, Database}
use carmentis_node.RadixTree.Nodes.{
  RadixSdk, some_nonzero, mask_of, nibble_at, has_bit, rest_length,
}

module _ (sdk : RadixSdk) (db : Database) (table : Table) where
  -- `getFromStorage`
  unfoldable pub get_from_storage : db.Store → Bytes → Result Bytes
  get_from_storage s hash = elim (db.get_raw s table hash) [
    | some value ↦ ok value
    | none ↦ if some_nonzero hash then thrown else ok sdk.root_anchoring_hash
  ]

  -- `getRootHash`
  abbrev pub get_root_hash : db.Store → Result Bytes
  get_root_hash s = get_from_storage s sdk.root_anchoring_hash

  -- `read`, with the number of nibbles below the depth; it gives the value and the proof.
  unfoldable pub read_value :
      ℕ → db.Store → Bytes → Option Bytes → Result (Option Bytes × List Bytes)
  read_value zero s key node_hash = ok (node_hash, [])
  read_value (suc below) s key none = thrown
  read_value (suc below) s key (some node_hash) =
      let depth = sdk.hash_size * 2 - suc below in
      get_from_storage s node_hash >>= λ node.
      let msk = mask_of node in
      let nibble = nibble_at key (depth / 2) depth in
      let child = read_value below s key (get_or (sdk.get_hash_list msk node) nibble none) in
      if msk == 0
      then (if sdk.key_difference depth key node
          then ok (none, node ∷ [])
          else ok (some (drop (2 + rest_length sdk depth) node), node ∷ []))
      else if has_bit msk nibble
      then (child >>= λ found. ok (found.0, node ∷ found.1))
      else ok (none, node ∷ [])

  -- `get`
  unfoldable pub get_pair : db.Store → Bytes → Result (Option Bytes × List Bytes)
  get_pair s key =
      get_root_hash s >>= λ root_hash. read_value (sdk.hash_size * 2) s key (some root_hash)
