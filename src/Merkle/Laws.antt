-- ===== src/Merkle/Laws.antt =====
-- What the Merkle tree promises: its height, and proofs made after leaves were added.
use native.Mathlib.Nat.{le-div_iff_mul-le, div-lt_iff_lt-mul, one-le-pow, one-mul}
use carmentis_node.Base.{
  ℕ, zero, suc, ◌+◌, ◌/◌, ◌^◌, ◌≤◌, ◌<◌, ◌≡◌, refl, ◌⊎◌, inl, inr, true, Bytes, length, arith, ok,
  thrown, ltb, Bool-cases,
}
use carmentis_node.Merkle.{Nodes, Hashes, MerkleProof, size_to_height, get_proof, verify_proof}
use carmentis_node.Merkle.Height.{path-eq-div, path-top, path-below_top, top, size_to_height-top}
use carmentis_node.Merkle.Shape.{node}
use carmentis_node.Merkle.Insert.{add_leaves, add_leaves-Represents}
use carmentis_node.Merkle.Proofs.{get_proof-accepted}

lt-pow_top : (last : ℕ) → last < 2 ^ 32 → last < 2 ^ top last
lt-pow_top last small =
    let zero_quotient : last / 2 ^ top last < 1 =
      omega (arith, path-eq-div last (top last), path-top last (top last) small (omega arith)) in
    omega (
      arith,
      (div-lt_iff_lt-mul (one-le-pow (top last) 2 (omega arith))).0 zero_quotient,
      one-mul (2 ^ top last),
    )

pow-le_last : (last row : ℕ) → row < top last → 2 ^ row ≤ last
pow-le_last last row h =
    let quotient : 1 ≤ last / 2 ^ row =
      omega (arith, path-eq-div last row, path-below_top last row h) in
    omega
      (arith, (le-div_iff_mul-le (one-le-pow row 2 (omega arith))).0 quotient, one-mul (2 ^ row))

-- For a size from 1 to 2 ^ 32 the height is that of the smallest complete binary tree with at
-- least as many leaves: a tree of that height has room for them, and any lower one has not. For
-- another size the call throws.
pub size_to_height-least :
    (size : ℕ)
    → ((1 ≤ size)
        × (size ≤ 2 ^ 32)
        × ((rows : ℕ) × (size_to_height size ≡ ok (rows + 1))
            × (size ≤ 2 ^ rows)
            × ((lower : ℕ) → lower < rows → 2 ^ lower < size)))
      ⊎ (((size ≡ 0) ⊎ (2 ^ 32 < size)) × (size_to_height size ≡ thrown))
unfolding size_to_height
size_to_height-least zero = inr (inl refl, refl)
size_to_height-least (suc last) = elim (Bool-cases (ltb (2 ^ 32) (suc last))) [
  | inl large ↦ inr (inr (ground arith), ground arith)
  | inr small ↦
      let in_range : last < 2 ^ 32 = ground arith in
      let next : last + 1 ≡ suc last = omega arith in
      inl (
        omega arith,
        omega arith,
        (
          top last,
          rw next at (size_to_height-top last in_range),
          lt-pow_top last in_range,
          λ lower h. omega (arith, pow-le_last last lower h),
        ),
      )
]

module _ (hashes : Hashes) (nodes : Nodes) (tree_id : Bytes) (leaf : ℕ → Bytes)
    (fits : (n : ℕ) → length (leaf n) ≡ 32) where
  -- After up to 2 ^ 32 leaves of 32 bytes were added in order, `getProof` for any of them succeeds;
  -- `verifyProof` accepts its result, which holds that leaf, and the root hash that the last
  -- `addLeaf` returned.
  pub get_proof-verify_proof :
      (last index : ℕ) (before : nodes.Db)
      → last < 2 ^ 32
      → index ≤ last
      → (root : Bytes) × (after : nodes.Db) × (p : MerkleProof) × (add_leaves hashes nodes tree_id
            leaf last before
          ≡ ok (root, after))
        × (get_proof hashes nodes tree_id index (last + 1) after ≡ ok p)
        × (verify_proof hashes p ≡ ok true)
        × (p.leaf_hash ≡ leaf index)
        × (p.root_hash ≡ root)
  get_proof-verify_proof last index before small within =
      let (after, run, holds) =
        add_leaves-Represents hashes nodes tree_id leaf fits last before small in
      let (p, made, accepted, same_leaf, same_root) =
        get_proof-accepted hashes leaf last index nodes tree_id after fits small within holds in
      (node hashes leaf last (top last) 0, after, p, run, made, accepted, same_leaf, same_root)
