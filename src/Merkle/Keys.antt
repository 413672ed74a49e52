-- ===== src/Merkle/Keys.antt =====
-- The keys of the nodes are distinct, so that the database is a grid of nodes.
use carmentis_node.Base.{
  ℕ, ◌/◌, ◌%◌, ◌^◌, ◌<◌, ◌≡◌, refl, true, ◌&&◌, [], ◌∷◌, ◌++◌, Bytes, bytes_eq, bytes_eq_iff, ◌==◌,
  arith, if◌then◌else◌, ok,
}
use carmentis_node.Merkle.{Nodes, Hashes, node_key, get_node, set_node}

bytes_eq-append : (t a b : Bytes) → bytes_eq (t ++ a) (t ++ b) ≡ bytes_eq a b
unfolding bytes_eq
bytes_eq-append [] a b = refl
bytes_eq-append (x ∷ t) a b = ground (arith, bytes_eq-append t a b)

-- The four bytes of a 32-bit number.
abbrev four_bytes : ℕ → Bytes
four_bytes c = c / 2 ^ 24 % 256 ∷ c / 2 ^ 16 % 256 ∷ c / 2 ^ 8 % 256 ∷ c % 256 ∷ []

four_bytes_injective :
    (c c' : ℕ)
    → c < 2 ^ 32
    → c' < 2 ^ 32
    → c / 2 ^ 24 % 256 ≡ c' / 2 ^ 24 % 256
    → c / 2 ^ 16 % 256 ≡ c' / 2 ^ 16 % 256
    → c / 2 ^ 8 % 256 ≡ c' / 2 ^ 8 % 256
    → c % 256 ≡ c' % 256
    → c ≡ c'
four_bytes_injective c c' h h' e1 e2 e3 e4 = omega arith

four_bytes_eq :
    (c c' : ℕ) → c < 2 ^ 32 → c' < 2 ^ 32 → bytes_eq (four_bytes c) (four_bytes c') ≡ true → c ≡ c'
unfolding bytes_eq
four_bytes_eq c c' h h' e =
    four_bytes_injective c c' h h' (ground arith) (ground arith) (ground arith) (ground arith)

bytes_eq-cons : (a b : ℕ) (l m : Bytes) → bytes_eq (a ∷ l) (b ∷ m) ≡ (a == b) && bytes_eq l m
unfolding bytes_eq
bytes_eq-cons a b l m = refl

module _ (hashes : Hashes) (nodes : Nodes) (tree_id : Bytes) where
  -- Two positions have the same key only if they are the same.
  pub node_key_eq :
      (r c r' c' : ℕ)
      → r < 256
      → r' < 256
      → c < 2 ^ 32
      → c' < 2 ^ 32
      → bytes_eq (node_key hashes nodes tree_id r c) (node_key hashes nodes tree_id r' c')
        ≡ (r == r') && (c == c')
  unfolding node_key
  node_key_eq r c r' c' hr hr' hc hc' = rw (bytes_eq-append tree_id) (
      rw (bytes_eq-cons (r % 256) (r' % 256) (four_bytes c) (four_bytes c'))
        (ground (arith, four_bytes_eq c c' hc hc', bytes_eq_iff (four_bytes c) (four_bytes c'))))

  -- `getNode` after `setNode`, at rows below 256 and columns below 2 ^ 32: the new value at the same
  -- position, and what was there at any other.
  pub get_node-set_node :
      (d : nodes.Db) (r c r' c' : ℕ) (v : Bytes)
      → r < 256
      → r' < 256
      → c < 2 ^ 32
      → c' < 2 ^ 32
      → get_node hashes nodes tree_id (set_node hashes nodes tree_id d r c v) r' c'
        ≡ (if (r == r') && (c == c') then ok v else get_node hashes nodes tree_id d r' c')
  unfolding get_node set_node
  get_node-set_node d r c r' c' v hr hr' hc hc' = ground (
    arith,
    nodes.get-put d (node_key hashes nodes tree_id r c) (node_key hashes nodes tree_id r' c') v,
    node_key_eq r c r' c' hr hr' hc hc',
  )
