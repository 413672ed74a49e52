-- ===== src/Merkle/Frames.antt =====
-- What a Merkle tree leaves alone: an addition changes the nodes and nothing else
-- (PersistentMerkleTree.ts).
use carmentis_node.Base.{
  ap, not, ℕ, zero, suc, ◌+◌, ◌-◌, ◌/◌, ◌%◌, ◌≡◌, refl, sym, ◌∙◌, inl, inr, Bytes, ltb, ◌==◌,
  Bool-cases, ok, throw_if, >>=-eq-ok, length, ok_injective,
}
use carmentis_node.Merkle.{
  Hashes, Nodes, get_node, set_node, merge_children_of, fill_empty, merge_up, add_leaf,
  add_tree_leaf, merge_hashes, shl_one, or_one, size_to_height,
}

module _ (hashes : Hashes) (nodes : Nodes) (tree_id : Bytes) {X : Type 0} (f : nodes.Db → X)
    (frame : (d : nodes.Db) (k v : Bytes) → f (nodes.put_merkle_node d k v) ≡ f d) where
  set_node-frame :
      (d : nodes.Db) (row col : ℕ) (v : Bytes) → f (set_node hashes nodes tree_id d row col v) ≡ f d
  unfolding set_node
  set_node-frame d row col v = frame d _ v

  merge_children_of-frame :
      (d d' : nodes.Db) (row col : ℕ)
      → merge_children_of hashes nodes tree_id d row col ≡ ok d'
      → f d' ≡ f d
  unfolding merge_children_of
  merge_children_of-frame d d' row col e =
      let (u, checked, e1) = >>=-eq-ok (throw_if (ltb row 1)) _ e in
      let (left, l, e2) =
        >>=-eq-ok (get_node hashes nodes tree_id d (row - 1) (shl_one col)) _ e1 in
      let (right, r, e3) =
        >>=-eq-ok (get_node hashes nodes tree_id d (row - 1) (or_one (shl_one col))) _ e2 in
      let (merged, m, e4) = >>=-eq-ok (merge_hashes hashes left right) _ e3 in
      ap f (sym (ok_injective e4)) ∙ set_node-frame d row col merged

  fill_empty-frame :
      (rounds row msk : ℕ) (d : nodes.Db)
      → f (fill_empty hashes nodes tree_id rounds row msk d) ≡ f d
  unfolding fill_empty
  fill_empty-frame zero row msk d = refl
  fill_empty-frame (suc rounds) row msk d = elim (Bool-cases (msk % 2 == 0)) [
    | inl c ↦ rw c (
        fill_empty-frame rounds (row + 1) (msk / 2) _
        ∙ set_node-frame d row (or_one msk) hashes.null_hash)
    | inr c ↦ rw c refl
  ]

  merge_up-frame :
      (rounds row col : ℕ) (d d' : nodes.Db)
      → merge_up hashes nodes tree_id rounds row col d ≡ ok d'
      → f d' ≡ f d
  unfolding merge_up
  merge_up-frame zero row col d d' e = ap f (sym (ok_injective e))
  merge_up-frame (suc rounds) row col d d' e =
      let (m, merged, rest) = >>=-eq-ok (merge_children_of hashes nodes tree_id d row col) _ e in
      merge_up-frame rounds (row + 1) (col / 2) m d' rest
      ∙ merge_children_of-frame d m row col merged

  -- An addition of a leaf that ends leaves what does not depend on the nodes.
  pub add_tree_leaf-frame :
      (index : ℕ) (hash root : Bytes) (d d' : nodes.Db)
      → add_tree_leaf hashes nodes tree_id index hash d ≡ ok (root, d')
      → f d' ≡ f d
  unfolding add_tree_leaf add_leaf
  add_tree_leaf-frame index hash root d d' e =
      let (u, checked, e1) = >>=-eq-ok (throw_if (not (length tree_id == 32))) _ e in
      let (height, h, e2) = >>=-eq-ok (size_to_height (index + 1)) _ e1 in
      let leaf_set = set_node hashes nodes tree_id d 0 index hash in
      let filled = fill_empty hashes nodes tree_id (height - 1) 0 index leaf_set in
      let (merged, m, e3) =
        >>=-eq-ok (merge_up hashes nodes tree_id (height - 1) 1 (index / 2) filled) _ e2 in
      let (top, t, e4) = >>=-eq-ok (get_node hashes nodes tree_id merged (height - 1) 0) _ e3 in
      ap (λ z. f z.1) (sym (ok_injective e4))
      ∙ merge_up-frame (height - 1) 1 (index / 2) filled merged m
      ∙ fill_empty-frame (height - 1) 0 index leaf_set
      ∙ set_node-frame d 0 index hash
