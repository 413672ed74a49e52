-- ===== src/Merkle/Empties.antt =====
-- The first loop of `addLeaf`: empty nodes beside the path, up to its first odd column.
use carmentis_node.Base.{
  ℕ, zero, suc, ◌+◌, ◌*◌, ◌/◌, ◌%◌, ◌^◌, ◌≤◌, ◌<◌, ◌≡◌, refl, ◌≢◌, ◌⊎◌, inl, inr, Bytes, arith, ok,
  Bool-cases, ◌==◌, ◌∙◌, ap, sym, false,
}
use carmentis_node.Merkle.{Nodes, Hashes, get_node, set_node, fill_empty}
use carmentis_node.Merkle.Height.{path, path-le, path-next}
use carmentis_node.Merkle.Keys.{get_node-set_node}
use carmentis_node.Merkle.Shape.{lt_or_eq}

parity : (n : ℕ) → (n % 2 == 0) ≡ false → n % 2 ≡ 1
parity n h = ground arith

module _ (hashes : Hashes) (nodes : Nodes) (tree_id : Bytes) (i : ℕ) (small : i < 2 ^ 32) where
  abbrev at : nodes.Db → ℕ → ℕ → carmentis_node.Base.Result Bytes
  at d r c = get_node hashes nodes tree_id d r c

  -- Nothing is written but next to an even column of the path, from `row` on.
  pub fill_empty-other :
      (rounds row msk : ℕ) (d : nodes.Db) (r c : ℕ)
      → msk ≡ path i row
      → row + rounds ≤ 256
      → r < 256
      → c < 2 ^ 32
      → (r < row) ⊎ (c ≢ path i r + 1)
      → at (fill_empty hashes nodes tree_id rounds row msk d) r c ≡ at d r c
  unfolding fill_empty
  fill_empty-other zero row msk d r c e fits hr hc away = refl
  fill_empty-other (suc rounds) row msk d r c e fits hr hc away = ground (
    arith,
    path-le i row,
    fill_empty-other rounds (row + 1) (msk / 2)
        (set_node hashes nodes tree_id d row (msk / 2 * 2 + 1) hashes.null_hash) r c,
    get_node-set_node hashes nodes tree_id d row (msk / 2 * 2 + 1) r c hashes.null_hash,
  )

  halved : (row msk : ℕ) → msk ≡ path i row → msk / 2 ≡ path i (row + 1)
  halved row msk e = ap (λ n. n / 2) e ∙ sym (path-next i row)

  lt_of_parity : (row r : ℕ) → row ≤ r → path i row % 2 ≡ 1 → path i r % 2 ≡ 0 → row < r
  lt_of_parity row r le odd even = elim (lt_or_eq row r (omega arith)) [
    | inl lt ↦ lt
    | inr same ↦ let clash : path i row % 2 ≡ 0 = rw same even in absurd (omega arith)
  ]

  set_sibling :
      (d : nodes.Db) (row r c : ℕ)
      → row < r
      → row < 256
      → r < 256
      → c < 2 ^ 32
      → path i r % 2 ≡ 0
      → at (set_node hashes nodes tree_id d row c hashes.null_hash) r (path i r + 1)
        ≡ at d r (path i r + 1)
  set_sibling d row r c h hr hr' hc even = ground (
    arith,
    path-le i r,
    get_node-set_node hashes nodes tree_id d row c r (path i r + 1) hashes.null_hash,
  )

  sibling_set :
      (d : nodes.Db) (row r msk : ℕ)
      → row ≡ r
      → msk ≡ path i row
      → r < 256
      → path i r % 2 ≡ 0
      → at (set_node hashes nodes tree_id d row (msk / 2 * 2 + 1) hashes.null_hash) r (path i r + 1)
        ≡ ok hashes.null_hash
  sibling_set d row r msk same e hr even =
      let col : path i row ≡ path i r = ap (path i) same in
      ground (
        arith,
        path-le i r,
        get_node-set_node hashes nodes tree_id d row (msk / 2 * 2 + 1) r (path i r + 1)
            hashes.null_hash,
      )

  -- Where the siblings above an odd column of the path are already empty nodes, all siblings on
  -- the right are after the loop.
  pub fill_empty-null :
      (rounds row msk : ℕ) (d : nodes.Db)
      → msk ≡ path i row
      → row + rounds ≤ 256
      → ((below r : ℕ)
          → row ≤ below
          → below < r
          → r < row + rounds
          → path i below % 2 ≡ 1
          → path i r % 2 ≡ 0
          → at d r (path i r + 1) ≡ ok hashes.null_hash)
      → (r : ℕ) → row ≤ r
      → r < row + rounds
      → path i r % 2 ≡ 0
      → at (fill_empty hashes nodes tree_id rounds row msk d) r (path i r + 1) ≡ ok hashes.null_hash
  unfolding fill_empty
  fill_empty-null zero row msk d e fits old r lo hi even = absurd (omega arith)
  fill_empty-null (suc rounds) row msk d e fits old r lo hi even =
      let d' = set_node hashes nodes tree_id d row (msk / 2 * 2 + 1) hashes.null_hash in
      elim (Bool-cases (msk % 2 == 0)) [
        | inr odd ↦
            let odd' : path i row % 2 ≡ 1 = rw (← e) (parity msk odd) in
            rw odd (old row r (omega arith) (lt_of_parity row r lo odd' even) hi odd' even)
        | inl even' ↦ elim (lt_or_eq row r (omega arith)) [
          | inl above ↦ rw even' (
              fill_empty-null rounds (row + 1) (msk / 2) d' (halved row msk e) (omega arith)
                (λ below r' p q s odd' ev.
                  set_sibling d row r' (msk / 2 * 2 + 1) (omega arith) (omega arith) (omega arith)
                    (omega (arith, path-le i row)) ev
                  ∙ old below r' (omega arith) q (omega arith) odd' ev)
                r (omega arith) (omega arith) even)
          | inr same ↦ rw even' (
              fill_empty-other rounds (row + 1) (msk / 2) d' r (path i r + 1) (halved row msk e)
                (omega arith) (omega arith) (omega (arith, path-le i r)) (inl (omega arith))
              ∙ sibling_set d row r msk same e (omega arith) even)
        ]
      ]
