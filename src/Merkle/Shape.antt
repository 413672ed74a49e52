-- ===== src/Merkle/Shape.antt =====
-- What the tree is: the hash at each position, as a function of the leaves, and the positions
-- that are stored.
use carmentis_node.Base.{
  ℕ, zero, suc, ◌+◌, ◌*◌, ◌/◌, ◌%◌, ◌^◌, ◌≤◌, ◌<◌, ◌≡◌, ◌≢◌, ◌⊎◌, inl, inr, Bytes, length, arith,
  leb, if◌then◌else◌,
}
use carmentis_node.Merkle.{Hashes}
use carmentis_node.Merkle.Merging.{digest, length-digest}
use carmentis_node.Merkle.Height.{path, path-le, top, top-le, path-top}
use native.Mathlib.Decide.{ℕ_discrete}

-- One more leaf moves the path by at most one column.
pub path-suc :
    (last row : ℕ)
    → (path last row ≤ path (suc last) row) × (path (suc last) row ≤ path last row + 1)
path-suc last zero = (omega arith, omega arith)
path-suc last (suc row) = let (lo, hi) = path-suc last row in (omega arith, omega arith)

pub lt_or_eq : (a b : ℕ) → a < suc b → (a < b) ⊎ (a ≡ b)
lt_or_eq a b h = ground arith

-- Above a row where the new path is in an odd column, the old path is the same.
pub path_same :
    (last below row : ℕ)
    → below < row
    → path (suc last) below % 2 ≡ 1
    → path last row ≡ path (suc last) row
path_same last below zero h odd = absurd (omega arith)
path_same last below (suc row) h odd = elim (lt_or_eq below row h) [
  | inl lower ↦ omega (arith, path_same last below row lower odd)
  | inr same ↦
      let odd' : path (suc last) row % 2 ≡ 1 = rw same at odd in omega (arith, path-suc last row)
]

-- The positions that hold a node once leaf `last` is added: all that have a leaf below them and
-- their siblings, and the root.
abbrev pub Stored : ℕ → ℕ → ℕ → Type 0
Stored last row col =
    ((row < top last) × (col / 2 ≤ path last (suc row))) ⊎ ((row ≡ top last) × (col ≡ 0))

pub Stored-bounds :
    (last row col : ℕ) → last < 2 ^ 32 → Stored last row col → (row < 256) × (col < 2 ^ 32)
Stored-bounds last row col h s = omega (arith, top-le last, path-le last row)

pub Stored-leaf : (last index : ℕ) → last < 2 ^ 32 → index ≤ last → Stored last 0 index
Stored-leaf last index small h = elim (ℕ_discrete (top last) 0) [
  | yes z ↦
      let none_left : path last 0 ≡ 0 = path-top last 0 small (omega arith) in
      inr (omega arith, omega arith)
  | no nz ↦ inl (omega arith, omega arith)
]

module _ (hashes : Hashes) (leaf : ℕ → Bytes) where
  -- The hash at a position: that of the leaf or of its two children, or the null hash if there is
  -- no leaf below it.
  unfoldable pub node : ℕ → ℕ → ℕ → Bytes
  node last zero col = if leb col last then leaf col else hashes.null_hash
  node last (suc row) col =
      let left = node last row (col * 2) in
      let right = node last row (col * 2 + 1) in
      if leb col (path last (suc row)) then digest hashes left right else hashes.null_hash

  pub node-leaf : (last : ℕ) → node last 0 last ≡ leaf last
  unfolding node
  node-leaf last = ground arith

  pub length-node :
      ((n : ℕ) → length (leaf n) ≡ 32) → (last row col : ℕ) → length (node last row col) ≡ 32
  unfolding node
  length-node fits last zero col = ground (arith, fits col, hashes.null_hash-length)
  length-node fits last (suc row) col = ground (
    arith,
    length-digest hashes (node last row (col * 2)) (node last row (col * 2 + 1)),
    hashes.null_hash-length,
  )

  pub node-leaf_le : (last index : ℕ) → index ≤ last → node last 0 index ≡ leaf index
  unfolding node
  node-leaf_le last index h = ground arith

  pub node_empty : (last row col : ℕ) → path last row < col → node last row col ≡ hashes.null_hash
  unfolding node
  node_empty last zero col h = ground arith
  node_empty last (suc row) col h = ground arith

  pub node_parent :
      (last row col : ℕ)
      → col ≤ path last (suc row)
      → node last (suc row) col
        ≡ digest hashes (node last row (col * 2)) (node last row (col * 2 + 1))
  unfolding node
  node_parent last row col h = ground arith

  -- A new leaf changes nothing off its path.
  pub node_stable :
      (last row col : ℕ) → col ≢ path (suc last) row → node (suc last) row col ≡ node last row col
  unfolding node
  node_stable last zero col h = ground arith
  node_stable last (suc row) col h = ground (
    arith,
    node_stable last row (col * 2) (omega arith),
    node_stable last row (col * 2 + 1) (omega arith),
    path-suc last (suc row),
  )
