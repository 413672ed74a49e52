-- ===== src/Merkle/Cached.antt =====
-- The cached database as the store of a Merkle tree.
use carmentis_node.Base.{none, Result, ok, thrown}
use carmentis_node.Database.Level.{Level}
use carmentis_node.Database.Cache.{Hex, CachedLevelDb}
use carmentis_node.Database.MerkleNodes.{
  get_merkle_node, put_merkle_node, get_merkle_node-put_merkle_node,
}
use carmentis_node.Merkle.{Nodes}

-- The value of a call that does not throw.
abbrev value_or {ℓ} : {A : Type ℓ} → Result A → A → A
value_or (ok a) other = a
value_or thrown other = other

pub cached_nodes : Hex → Level → Nodes
cached_nodes hex level = record {
  Db = CachedLevelDb level;
  get_merkle_node = λ c k. value_or (get_merkle_node hex level c k) none;
  put_merkle_node = λ c k v. value_or (put_merkle_node hex level c k v) c;
  get-put = λ c k j v.
      let (c', before, put, read, read') = get_merkle_node-put_merkle_node hex level c k j v in
      rw put (rw read (rw read'));
}
