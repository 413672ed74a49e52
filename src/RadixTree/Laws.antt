-- ===== src/RadixTree/Laws.antt =====
-- The root of a radix tree (RadixTree.ts).
use carmentis_node.Base.{◌*◌, ◌≡◌, some, Bytes, ok, arith, ==_iff, bytes_eq_iff}
use carmentis_node.Base.Effects.{done, bind-eq-done, lift-eq_done}
use carmentis_node.Database.Stores.{Table, table_id, Database}
use carmentis_node.RadixTree.Nodes.{RadixSdk}
use carmentis_node.RadixTree.Read.{get_from_storage, get_root_hash, get_pair, read_value}
use carmentis_node.RadixTree.Write.{write, set_pair}

module _ (sdk : RadixSdk) (db : Database) (table : Table) where
  -- After a write that ends, the root is the hash that the write of the nodes gave for the root
  -- before, and every read starts at it.
  pub set_pair-root :
      (key value : Bytes) (s s' : db.Store)
      → set_pair sdk db table key value s ≡ done tt s'
      → (old : Bytes) × (root : Bytes) × (middle : db.Store) × (get_root_hash sdk db table s
          ≡ ok old)
        × (write sdk db table (sdk.hash_size * 2) key value (some old) s ≡ done root middle)
        × (get_root_hash sdk db table s' ≡ ok root)
        × ((k : Bytes)
            → get_pair sdk db table s' k
              ≡ read_value sdk db table (sdk.hash_size * 2) s' k (some root))
  unfolding set_pair get_from_storage get_pair
  set_pair-root key value s s' e =
      let (old, found, e1) = lift-eq_done (get_root_hash sdk db table s) {s = s} _ e in
      let (root, middle, written, e2) =
        bind-eq-done (write sdk db table (sdk.hash_size * 2) key value (some old) s) _ e1 in
      let here = ==_iff (table_id table) (table_id table) in
      let anchored : get_root_hash sdk db table s' ≡ ok root = ground (
        arith,
        e2,
        here,
        db.get-put middle table table sdk.root_anchoring_hash sdk.root_anchoring_hash root,
        bytes_eq_iff sdk.root_anchoring_hash sdk.root_anchoring_hash,
      ) in
      (old, root, middle, found, written, anchored, λ k. ground (arith, anchored))
