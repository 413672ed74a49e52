-- ===== src/Merkle/Tables.antt =====
-- The table of the Merkle nodes of a database (`getMerkleNode` and `putMerkleNode` of
-- AbstractLevelDb.ts).
use carmentis_node.Base.{arith, ◌≡◌, some, Bytes, bytes_eq, if◌then◌else◌}
use carmentis_node.Database.Stores.{Table, Database}
use carmentis_node.Merkle.{Nodes}

module _ (db : Database) where
  pub table_nodes-get_put :
      (s : db.Store) (k j v : Bytes)
      → db.get_raw (db.put_raw s Table.merkle_node k v) Table.merkle_node j
        ≡ (if bytes_eq k j then some v else db.get_raw s Table.merkle_node j)
  table_nodes-get_put s k j v =
      ground (arith, db.get-put s Table.merkle_node Table.merkle_node k j v)

  abbrev pub table_nodes : Nodes
  table_nodes = record {
    Db = db.Store;
    get_merkle_node = λ s k. db.get_raw s Table.merkle_node k;
    put_merkle_node = λ s k v. db.put_raw s Table.merkle_node k v;
    get-put = table_nodes-get_put;
  }
