-- ===== src/Merkle/Proofs.antt =====
-- `getProof` and `verifyProof`: the proofs made from the tree are accepted.
use native.Mathlib.Nat.{zero-add}
use carmentis_node.Base.{
  ℕ, zero, suc, ◌+◌, ◌-◌, ◌*◌, ◌/◌, ◌%◌, ◌^◌, ◌≤◌, ◌<◌, ◌≡◌, refl, inl, inr, true, false, some,
  List, [], ◌∷◌, Bytes, length, if◌then◌else◌, arith, Result, ok, ◌∙◌, ap, ◌>>=◌, get_elem?, ◌==◌,
  bytes_eq_refl, Bool-cases,
}
use carmentis_node.Merkle.{
  Nodes, Hashes, MerkleProof, witness_rows, get_proof, verify_rows, verify_proof, merge_hashes,
  xor_one, shr,
}
use carmentis_node.Merkle.Height.{
  path, path-next, path_mono, path-top, top, shr-path, size_to_height-top,
}
use carmentis_node.Merkle.Shape.{node, node_parent, node-leaf_le, Stored-leaf, length-node}
use carmentis_node.Merkle.Merging.{digest, merge_hashes-digest}
use carmentis_node.Merkle.Insert.{at, Represents}

module _ (hashes : Hashes) (leaf : ℕ → Bytes) (last index : ℕ) where
  -- The hashes beside the path of the leaf, from a row on.
  abbrev pub siblings : ℕ → ℕ → List Bytes
  siblings zero row = []
  siblings (suc rounds) row =
      node hashes leaf last row (xor_one (path index row)) ∷ siblings rounds (row + 1)

  get_elem?-siblings :
      (rounds row k : ℕ)
      → k < rounds
      → get_elem? (siblings rounds row) k
        ≡ some (node hashes leaf last (row + k) (xor_one (path index (row + k))))
  get_elem?-siblings zero row k h = absurd (omega arith)
  get_elem?-siblings (suc rounds) row zero h = let e : row ≡ row + 0 = omega arith in rw (← e)
  get_elem?-siblings (suc rounds) row (suc k) h =
      let e : row + 1 + k ≡ row + suc k = omega arith in
      rw (← e) (get_elem?-siblings rounds (row + 1) k (omega arith))

  -- What comes out of the row, merged with its sibling, is the next hash of the path.
  abbrev pub merged : ℕ → Bytes → Bytes → Result Bytes
  merged row witness current =
      if shr index row % 2 == 1
      then merge_hashes hashes witness current
      else merge_hashes hashes current witness

  pub verify_rows-suc :
      (rounds row : ℕ) (witnesses : List Bytes) (witness current : Bytes)
      → get_elem? witnesses row ≡ some witness
      → verify_rows hashes (suc rounds) row index witnesses current
        ≡ (merged row witness current >>= verify_rows hashes rounds (row + 1) index witnesses)
  unfolding verify_rows
  verify_rows-suc rounds row witnesses witness current found = ground (arith, found)

  -- The order in which a row is merged, and the two nodes that it should merge.
  pub data Side (row : ℕ) : Type 0 where
    right_side :
        (shr index row % 2 == 1) ≡ true
        → xor_one (path index row) ≡ path index row / 2 * 2
        → path index row ≡ path index row / 2 * 2 + 1
        → Side row
    left_side :
        (shr index row % 2 == 1) ≡ false
        → path index row ≡ path index row / 2 * 2
        → xor_one (path index row) ≡ path index row / 2 * 2 + 1
        → Side row

  pub side : (row : ℕ) → index < 2 ^ 32 → Side row
  side row small =
      let bit : shr index row ≡ path index row = shr-path index row small in
      elim (Bool-cases (shr index row % 2 == 1)) [
        | inl odd ↦ right_side odd (ground arith) (ground arith)
        | inr even ↦ left_side even (ground arith) (ground arith)
      ]

  module _ (small : last < 2 ^ 32) (within : index ≤ last) where
    pub parent :
        (row : ℕ)
        → digest hashes
            (node hashes leaf last row (path index row / 2 * 2))
            (node hashes leaf last row (path index row / 2 * 2 + 1))
          ≡ node hashes leaf last (row + 1) (path index (row + 1))
    parent row =
        let up : row + 1 ≡ suc row = omega arith in
        cc (
          up,
          path-next index row,
          node_parent hashes leaf last row (path index row / 2)
              (path_mono index last (suc row) within),
        )

    module _ (fits : (n : ℕ) → length (leaf n) ≡ 32) where
      -- Merging a node of the path with its sibling gives the next node of the path.
      merged-node :
          (row : ℕ)
          → merged row
              (node hashes leaf last row (xor_one (path index row)))
              (node hashes leaf last row (path index row))
            ≡ ok (node hashes leaf last (row + 1) (path index (row + 1)))
      merged-node row =
          let p = path index row in
          let sibling = node hashes leaf last row (xor_one p) in
          let own = node hashes leaf last row p in
          let sibling_length = length-node hashes leaf fits last row (xor_one p) in
          let own_length = length-node hashes leaf fits last row p in
          elim (side row (omega arith)) [
            | right_side odd l r ↦ rw odd (
                merge_hashes-digest hashes sibling own sibling_length own_length
                ∙ ap ok (cc (l, r, parent row)))
            | left_side even l r ↦ rw even (
                merge_hashes-digest hashes own sibling own_length sibling_length
                ∙ ap ok (cc (l, r, parent row)))
          ]

      pub verify_rows-node :
          (rounds row : ℕ)
          → row + rounds ≡ top last
          → verify_rows hashes rounds row index
              (siblings (top last) 0)
              (node hashes leaf last row (path index row))
            ≡ ok (node hashes leaf last (top last) 0)
      unfolding verify_rows
      verify_rows-node zero row e =
          let end : row ≡ top last = omega arith in
          let col : path index row ≡ 0 =
            omega (arith, path_mono index last row within, path-top last row small (omega arith)) in
          cc (end, col)
      verify_rows-node (suc rounds) row e =
          let found = get_elem?-siblings (top last) 0 row (omega arith) in
          let here : 0 + row ≡ row = omega arith in
          let found' = rw here at found in
          verify_rows-suc rounds row _ _ _ found'
          ∙ rw (merged-node row) (verify_rows-node rounds (row + 1) (omega arith))

  module _ (nodes : Nodes) (tree_id : Bytes) (d : nodes.Db)
      (fits : (n : ℕ) → length (leaf n) ≡ 32) where
    witness_rows-siblings :
        (rounds row col : ℕ)
        → col ≡ path index row
        → row + rounds ≡ top last
        → index ≤ last
        → Represents hashes nodes tree_id leaf last d
        → witness_rows hashes nodes tree_id rounds row col d ≡ ok (siblings rounds row)
    unfolding witness_rows
    witness_rows-siblings zero row col e f within holds = refl
    witness_rows-siblings (suc rounds) row col e f within holds =
        let beside : (row < top last) × (xor_one col / 2 ≤ path last (suc row)) =
          (omega arith, ground (arith, path_mono index last (suc row) within)) in
        let next : xor_one col / 2 ≡ path index (row + 1) = ground (arith, path-next index row) in
        rw (holds row (xor_one col) (inl beside)) (
          rw
            (witness_rows-siblings rounds (row + 1) (xor_one col / 2) next (omega arith) within
              holds)
            (ground arith))

    -- A proof made for a leaf of the tree is accepted, and names that leaf and the root.
    pub get_proof-accepted :
        last < 2 ^ 32
        → index ≤ last
        → Represents hashes nodes tree_id leaf last d
        → (p : MerkleProof) × (get_proof hashes nodes tree_id index (last + 1) d ≡ ok p)
          × (verify_proof hashes p ≡ ok true)
          × (p.leaf_hash ≡ leaf index)
          × (p.root_hash ≡ node hashes leaf last (top last) 0)
    unfolding get_proof verify_proof
    get_proof-accepted small within holds =
        let less_one : top last + 1 - 1 ≡ top last = omega arith in
        let leaf_read : at hashes nodes tree_id leaf d 0 index ≡ ok (leaf index) =
          holds 0 index (Stored-leaf last index small within)
          ∙ ap ok (node-leaf_le hashes leaf last index within) in
        let accepted =
          rw (node-leaf_le hashes leaf last index within) at
            (verify_rows-node small within fits (top last) 0 (zero-add (top last))) in
        let root = holds (top last) 0 (inr (refl, refl)) in
        (
          record {
            size = last + 1;
            leaf_index = index;
            leaf_hash = leaf index;
            root_hash = node hashes leaf last (top last) 0;
            witnesses = siblings (top last) 0;
          },
          rw (size_to_height-top last small) (
              rw less_one (
                rw leaf_read (
                  rw root (
                    rw (
                      witness_rows-siblings (top last) 0 index refl (zero-add (top last)) within
                        holds))))),
          rw (size_to_height-top last small)
              (rw less_one (rw accepted (rw (bytes_eq_refl (node hashes leaf last (top last) 0))))),
          refl,
          refl,
        )
