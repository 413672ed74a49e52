-- ===== src/Merkle/Parents.antt =====
-- The second loop of `addLeaf`: the parents on the path, up to the root.
use carmentis_node.Base.{
  ℕ, zero, suc, ◌+◌, ◌-◌, ◌*◌, ◌/◌, ◌^◌, ◌≤◌, ◌<◌, ◌≡◌, refl, ◌≢◌, ◌⊎◌, inl, inr, Bytes, length,
  arith, Result, ok, ◌∙◌, ap, sym,
}
use mathlib.Core.Path.{subst}
use native.Mathlib.Decide.{ℕ_discrete}
use carmentis_node.Merkle.{
  Nodes, Hashes, get_node, set_node, merge_children_of, merge_up, shl_one, or_one,
}
use carmentis_node.Merkle.Height.{path, path-le, path-next, top, top-le}
use carmentis_node.Merkle.Keys.{get_node-set_node}
use carmentis_node.Merkle.Shape.{Stored, Stored-bounds, node, node_parent, length-node}
use carmentis_node.Merkle.Merging.{merge_hashes-digest}

module _ (hashes : Hashes) (nodes : Nodes) (tree_id : Bytes) (leaf : ℕ → Bytes)
    (fits : (n : ℕ) → length (leaf n) ≡ 32) (i : ℕ) (small : i < 2 ^ 32) where
  abbrev at : nodes.Db → ℕ → ℕ → Result Bytes
  at d r c = get_node hashes nodes tree_id d r c

  -- The stored positions off the path, and those below a row, hold what they should.
  abbrev pub Below : ℕ → nodes.Db → Type 0
  Below row d =
      (r c : ℕ) → Stored i r c → (c ≢ path i r) ⊎ (r < row) → at d r c ≡ ok (node hashes leaf i r c)

  shl_small : (c : ℕ) → c * 2 < 2 ^ 32 → shl_one c ≡ c * 2
  shl_small c h = omega arith

  or_shl : (c : ℕ) → c * 2 < 2 ^ 32 → or_one (shl_one c) ≡ c * 2 + 1
  or_shl c h = omega arith

  -- Merging the children of the path's column gives what its parent should hold.
  merge_children_of-node :
      (r : ℕ) (d : nodes.Db)
      → r < top i
      → Below (suc r) d
      → merge_children_of hashes nodes tree_id d (suc r) (path i (suc r))
        ≡ ok (
            set_node hashes nodes tree_id d
              (suc r)
              (path i (suc r))
              (node hashes leaf i (suc r) (path i (suc r))))
  unfolding merge_children_of
  merge_children_of-node r d h below =
      let c = path i (suc r) in
      let in_range : c * 2 < 2 ^ 32 = omega (arith, path-le i r) in
      let row : suc r - 1 ≡ r = omega arith in
      rw (row, or_shl c in_range, shl_small c in_range)
        (rw (below r (c * 2) (inl (h, omega arith)) (inr (omega arith))) (
          rw (below r (c * 2 + 1) (inl (h, omega arith)) (inr (omega arith))) (
            rw
              (merge_hashes-digest hashes (node hashes leaf i r (c * 2))
                (node hashes leaf i r (c * 2 + 1)) (length-node hashes leaf fits i r (c * 2))
                (length-node hashes leaf fits i r (c * 2 + 1)))
              (rw (← node_parent hashes leaf i r c (omega arith)) (ground arith)))))

  set-Below :
      (r : ℕ) (d : nodes.Db)
      → suc r ≤ top i
      → Below (suc r) d
      → Below (suc (suc r)) (
          set_node hashes nodes tree_id d
            (suc r)
            (path i (suc r))
            (node hashes leaf i (suc r) (path i (suc r))))
  set-Below r d h below r' c' stored away =
      let v = node hashes leaf i (suc r) (path i (suc r)) in
      let (hr, hc) = Stored-bounds i r' c' small stored in
      let write =
        get_node-set_node hashes nodes tree_id d (suc r) (path i (suc r)) r' c' v
          (omega (arith, top-le i)) hr (omega (arith, path-le i (suc r))) hc in
      elim (ℕ_discrete (suc r) r') [
        | yes same ↦ elim (ℕ_discrete (path i (suc r)) c') [
          | yes on ↦ rw (← same, ← on) (ground (arith, rw (← same, ← on) at write))
          | no off ↦
              ground (arith, write, below r' c' stored (inl (λ e. off (ap (path i) same ∙ sym e))))
        ]
        | no other ↦
            let away' : (c' ≢ path i r') ⊎ (r' < suc r) = elim away [
              | inl n ↦ inl n
              | inr l ↦ inr (omega arith)
            ] in
            ground (arith, write, below r' c' stored away')
      ]

  -- The loop does not throw, and leaves every stored position as it should be.
  pub merge_up-Represents :
      (rounds row r col : ℕ) (d : nodes.Db)
      → row ≡ suc r
      → col ≡ path i row
      → r + rounds ≡ top i
      → Below row d
      → (d' : nodes.Db) × (merge_up hashes nodes tree_id rounds row col d ≡ ok d')
        × ((r' c' : ℕ) → Stored i r' c' → at d' r' c' ≡ ok (node hashes leaf i r' c'))
  unfolding merge_up
  merge_up-Represents zero row r col d e1 e2 e3 below =
      (d, refl, λ r' c' s. below r' c' s (inr (omega arith)))
  merge_up-Represents (suc rounds) row r col d e1 e2 e3 below =
      let c = path i (suc r) in
      let d1 = set_node hashes nodes tree_id d (suc r) c (node hashes leaf i (suc r) c) in
      let below' : Below (suc r) d = subst (λ n. Below n d) e1 below in
      let col_eq : col ≡ c = e2 ∙ ap (path i) e1 in
      let step : merge_children_of hashes nodes tree_id d row col ≡ ok d1 =
        rw (e1, col_eq) (merge_children_of-node r d (omega arith) below') in
      let up : suc (suc r) ≡ row + 1 = omega arith in
      let (d', run, good) =
        merge_up-Represents rounds (row + 1) (suc r) (col / 2) d1 (sym up)
          (ap (λ n. n / 2) e2 ∙ sym (path-next i row)) (omega arith)
          (subst (λ n. Below n d1) up (set-Below r d (omega arith) below')) in
      (d', rw step run, good)
