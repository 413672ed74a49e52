-- ===== src/Merkle.antt =====
-- The Merkle tree kept in the database
-- (src/carmentis/abci/persistentMerkleTree/PersistentMerkleTree.ts).
pub mod Height
pub mod Keys
pub mod Merging
pub mod Shape
pub mod Empties
pub mod Parents
pub mod Insert
pub mod Proofs
pub mod Soundness
pub mod Cached
pub mod Tables
pub mod Frames
mod Laws
mod Examples
use carmentis_node.Base.{
  ℕ, zero, suc, ◌+◌, ◌-◌, ◌*◌, ◌/◌, ◌%◌, ◌^◌, ◌≡◌, Bool, true, false, not, ◌&&◌, ◌||◌, Option, none,
  some, List, [], ◌∷◌, ◌++◌, Bytes, bytes_eq, ltb, ◌==◌, if◌then◌else◌, Result, ok, thrown, ◌>>=◌,
  ◌>>◌, throw_if, length, get_elem?, replicate, take, drop,
}

-- `db.getMerkleNode` and `db.putMerkleNode`.
pub record Nodes : Type 1 where
  pub Db : Type 0
  pub get_merkle_node : Db → Bytes → Option Bytes
  pub put_merkle_node : Db → Bytes → Bytes → Db
  pub get-put :
      (d : Db) (k j v : Bytes)
      → get_merkle_node (put_merkle_node d k v) j
        ≡ (if bytes_eq k j then some v else get_merkle_node d j)

-- SHA-256, which belongs to Node.js, and `Utils.getNullHash` of the SDK. Both are 32 bytes.
pub record Hashes : Type 0 where
  pub sha256 : Bytes → Bytes
  pub null_hash : Bytes
  pub sha256-length : (b : Bytes) → length (sha256 b) ≡ 32
  pub null_hash-length : length null_hash ≡ 32

-- `interface MerkleProof`
pub record MerkleProof : Type 0 where
  pub size : ℕ
  pub leaf_index : ℕ
  pub leaf_hash : Bytes
  pub root_hash : Bytes
  pub witnesses : List Bytes

-- The number of significant bits, counted over at most as many bits as the first argument says.
unfoldable pub bit_length : ℕ → ℕ → ℕ
bit_length zero x = 0
bit_length (suc n) x = let rest = bit_length n (x / 2) in if x == 0 then 0 else suc rest

-- `Math.clz32`
unfoldable pub clz32 : ℕ → ℕ
clz32 x = 32 - bit_length 32 (x % 2 ^ 32)

-- `sizeToHeight`
unfoldable pub size_to_height : ℕ → Result ℕ
unfolding clz32
size_to_height size = do throw_if (ltb size 1 || ltb (2 ^ 32) size); ok (33 - clz32 (size - 1))

-- `x | 1`, `x ^ 1`, `x >>> 1`, `x << 1` and `x >>> k` on unsigned 32-bit numbers. (The source's
-- signed results only reach the four bytes of a key.)
abbrev pub or_one : ℕ → ℕ
or_one x = x / 2 * 2 + 1

abbrev pub xor_one : ℕ → ℕ
xor_one x = if x % 2 == 0 then x + 1 else x - 1

abbrev pub shl_one : ℕ → ℕ
shl_one x = x * 2 % 2 ^ 32

abbrev pub shr : ℕ → ℕ → ℕ
shr x k = x % 2 ^ 32 / 2 ^ k

-- `buffer.set(bytes, offset)`, which throws if the bytes do not fit.
unfoldable pub buffer_set : Bytes → ℕ → Bytes → Result Bytes
buffer_set buffer offset bytes =
    if ltb (length buffer) (offset + length bytes)
    then thrown
    else ok (take offset buffer ++ (bytes ++ drop (offset + length bytes) buffer))

module _ (hashes : Hashes) where
  -- `mergeHashes`
  pub merge_hashes : Bytes → Bytes → Result Bytes
  merge_hashes left_child right_child = do
    half ← buffer_set (replicate 64 0) 0 left_child
    concatenation ← buffer_set half 32 right_child
    ok (hashes.sha256 concatenation)

  -- The loop of `verifyProof`, with `rounds` rows left of it.
  pub verify_rows : ℕ → ℕ → ℕ → List Bytes → Bytes → Result Bytes
  verify_rows zero row index witnesses current = ok current
  verify_rows (suc rounds) row index witnesses current = elim (get_elem? witnesses row) [
    | none ↦ thrown
    | some witness ↦ do
      next ←
          if shr index row % 2 == 1
          then merge_hashes witness current
          else merge_hashes current witness
      verify_rows rounds (row + 1) index witnesses next
  ]

  -- `verifyProof`
  pub verify_proof : MerkleProof → Result Bool
  unfolding verify_rows
  verify_proof p = do
    height ← size_to_height p.size
    current ← verify_rows (height - 1) 0 p.leaf_index p.witnesses p.leaf_hash
    ok (bytes_eq current p.root_hash)

module _ (hashes : Hashes) (nodes : Nodes) (tree_id : Bytes) where
  -- `getNodeKey`
  unfoldable pub node_key : ℕ → ℕ → Bytes
  node_key row col =
      tree_id
      ++ (row % 256 ∷ col / 2 ^ 24 % 256 ∷ col / 2 ^ 16 % 256 ∷ col / 2 ^ 8 % 256 ∷ col % 256 ∷ [])

  -- `getNode`
  unfoldable pub get_node : nodes.Db → ℕ → ℕ → Result Bytes
  get_node d row col = elim (nodes.get_merkle_node d (node_key row col)) [
    | none ↦ thrown
    | some node ↦ ok node
  ]

  -- `setNode`
  unfoldable pub set_node : nodes.Db → ℕ → ℕ → Bytes → nodes.Db
  set_node d row col value = nodes.put_merkle_node d (node_key row col) value

  -- `mergeChildrenOf`
  pub merge_children_of : nodes.Db → ℕ → ℕ → Result nodes.Db
  merge_children_of d row col = do
    throw_if (ltb row 1)
    left_child ← get_node d (row - 1) (shl_one col)
    right_child ← get_node d (row - 1) (or_one (shl_one col))
    merged_hash ← merge_hashes hashes left_child right_child
    ok (set_node d row col merged_hash)

  -- The first loop of `addLeaf`, with `rounds` rows left of it: the empty nodes.
  unfoldable pub fill_empty : ℕ → ℕ → ℕ → nodes.Db → nodes.Db
  fill_empty zero row msk d = d
  fill_empty (suc rounds) row msk d =
      let rest =
        fill_empty rounds (row + 1) (msk / 2) (set_node d row (or_one msk) hashes.null_hash) in
      if msk % 2 == 0 then rest else d

  -- The second loop of `addLeaf`, with `rounds` rows left of it: the parents, up to the root.
  unfoldable pub merge_up : ℕ → ℕ → ℕ → nodes.Db → Result nodes.Db
  merge_up zero row col d = ok d
  merge_up (suc rounds) row col d = do
    d' ← merge_children_of d row col
    merge_up rounds (row + 1) (col / 2) d'

  -- `addLeaf`: the root hash and the database that it leaves.
  unfoldable pub add_leaf : ℕ → Bytes → nodes.Db → Result (Bytes × nodes.Db)
  add_leaf index hash d = do
    height ← size_to_height (index + 1)
    let leaf_set = set_node d 0 index hash
    let filled = fill_empty (height - 1) 0 index leaf_set
    merged ← merge_up (height - 1) 1 (index / 2) filled
    root ← get_node merged (height - 1) 0
    ok (root, merged)

  -- The loop of `getProof`, with `rounds` rows left of it.
  pub witness_rows : ℕ → ℕ → ℕ → nodes.Db → Result (List Bytes)
  witness_rows zero row col d = ok []
  witness_rows (suc rounds) row col d = do
    witness ← get_node d row (xor_one col)
    rest ← witness_rows rounds (row + 1) (xor_one col / 2) d
    ok (witness ∷ rest)

  -- `getProof`
  pub get_proof : ℕ → ℕ → nodes.Db → Result MerkleProof
  get_proof index size d = do
    height ← size_to_height size
    leaf ← get_node d 0 index
    root ← get_node d (height - 1) 0
    witnesses ← witness_rows (height - 1) 0 index d
    ok (record {
      size = size;
      leaf_index = index;
      leaf_hash = leaf;
      root_hash = root;
      witnesses = witnesses;
    })

  -- The constructor's check, and the static helpers `addTreeLeaf` and `getTreeProof`.
  unfoldable pub check_tree_id : Result (Unit {0})
  check_tree_id = throw_if (not (length tree_id == 32))

  unfoldable pub add_tree_leaf : ℕ → Bytes → nodes.Db → Result (Bytes × nodes.Db)
  unfolding check_tree_id
  add_tree_leaf index hash d = check_tree_id >> add_leaf index hash d

  pub get_tree_leaf : ℕ → nodes.Db → Result Bytes
  unfolding check_tree_id
  get_tree_leaf index d = check_tree_id >> get_node d 0 index

  pub get_tree_proof : ℕ → ℕ → nodes.Db → Result MerkleProof
  unfolding check_tree_id
  get_tree_proof index size d = check_tree_id >> get_proof index size d
