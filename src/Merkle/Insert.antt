-- ===== src/Merkle/Insert.antt =====
-- `addLeaf`: leaves added one after the other give the tree of all of them.
use carmentis_node.Base.{
  ℕ, zero, suc, ◌+◌, ◌-◌, ◌/◌, ◌%◌, ◌^◌, ◌≤◌, ◌<◌, ◌≡◌, refl, ◌≢◌, ◌⊎◌, inl, inr, Bytes, length,
  arith, Result, ok, ◌∙◌, ap, sym, ◌>>=◌,
}
use native.Mathlib.Decide.{ℕ_discrete}
use native.Mathlib.Nat.{zero-add}
use carmentis_node.Merkle.{Nodes, Hashes, get_node, set_node, fill_empty, merge_up, add_leaf}
use carmentis_node.Merkle.Height.{
  path, path-le, top, top-le, path-below_top, path-top, lt-top, size_to_height-top, top-zero,
}
use carmentis_node.Merkle.Keys.{get_node-set_node}
use carmentis_node.Merkle.Shape.{
  path-suc, path_same, Stored, Stored-bounds, node, node_empty, node_stable, node-leaf,
}
use carmentis_node.Merkle.Empties.{fill_empty-other, fill_empty-null}
use carmentis_node.Merkle.Parents.{merge_up-Represents}

module _ (hashes : Hashes) (nodes : Nodes) (tree_id : Bytes) (leaf : ℕ → Bytes) where
  abbrev pub at : nodes.Db → ℕ → ℕ → Result Bytes
  at d r c = get_node hashes nodes tree_id d r c

  -- The database holds the tree of the leaves 0 … `last`.
  abbrev pub Represents : ℕ → nodes.Db → Type 0
  Represents last d = (r c : ℕ) → Stored last r c → at d r c ≡ ok (node hashes leaf last r c)

  -- The leaves 0 … `last`, added in order; the root hash is the one that the last call returns.
  pub add_leaves : ℕ → nodes.Db → Result (Bytes × nodes.Db)
  add_leaves zero d = add_leaf hashes nodes tree_id 0 (leaf 0) d
  add_leaves (suc last) d = do
    (_, d') ← add_leaves last d
    add_leaf hashes nodes tree_id (suc last) (leaf (suc last)) d'

module _ (hashes : Hashes) (nodes : Nodes) (tree_id : Bytes) (leaf : ℕ → Bytes)
    (fits : (n : ℕ) → length (leaf n) ≡ 32) where
  module _ (last : ℕ) (small : suc last < 2 ^ 32) (d : nodes.Db)
      (old : Represents hashes nodes tree_id leaf last d) where
    abbrev i : ℕ
    i = suc last

    Stored-here : (r c : ℕ) → r ≤ top last → c < path i r → Stored last r c
    Stored-here r c le lt = elim (ℕ_discrete (path last r) 0) [
      | yes z ↦
          let not_below : ¬ (r < top last) = λ l. path-below_top last r l z in
          inr (omega arith, omega (arith, path-suc last r))
      | no nz ↦ inl (lt-top last r (omega arith) nz, omega (arith, path-suc last r))
    ]

    row_before : (r c : ℕ) → c < path i r → r ≤ top last
    row_before zero c lt = omega arith
    row_before (suc r) c lt =
        let nz : path last r ≢ 0 = omega (arith, path-suc last r) in
        omega (arith, lt-top last r (omega arith) nz)

    -- A position off the new path and not next to it was stored before.
    Stored-before : (r c : ℕ) → Stored i r c → c ≢ path i r → c ≢ path i r + 1 → Stored last r c
    Stored-before r c (inr (e, z)) off next =
        let root : path i r ≡ 0 = path-top i r small (omega arith) in absurd (omega arith)
    Stored-before r c (inl (h, s)) off next =
        let lt : c < path i r = omega arith in Stored-here r c (row_before r c lt) lt

    -- An empty node next to the new path, above an odd column of it, was stored before.
    empty_before :
        (below r : ℕ)
        → below < r
        → r < top i
        → path i below % 2 ≡ 1
        → path i r % 2 ≡ 0
        → at hashes nodes tree_id leaf d r (path i r + 1) ≡ ok hashes.null_hash
    empty_before below r lower h odd even =
        let same = path_same last below r lower odd in
        let here : r < top last = lt-top last r (omega arith) (rw same (path-below_top i r h)) in
        old r (path i r + 1) (inl (here, omega arith))
        ∙ ap ok (node_empty hashes leaf last r (path i r + 1) (omega arith))

    -- The tree after the new leaf and the first loop.
    filled : nodes.Db
    filled =
        fill_empty hashes nodes tree_id (top i) 0 i (set_node hashes nodes tree_id d 0 i (leaf i))

    leaf_set :
        (r c : ℕ)
        → r < 256
        → c < 2 ^ 32
        → (r ≢ 0) ⊎ (c ≢ i)
        → at hashes nodes tree_id leaf (set_node hashes nodes tree_id d 0 i (leaf i)) r c
          ≡ at hashes nodes tree_id leaf d r c
    leaf_set r c hr hc away =
        ground (arith, get_node-set_node hashes nodes tree_id d 0 i r c (leaf i))

    filled-leaf : at hashes nodes tree_id leaf filled 0 i ≡ ok (node hashes leaf i 0 i)
    unfolding filled
    filled-leaf =
        fill_empty-other hashes nodes tree_id i small (top i) 0 i _ 0 i refl
          (omega (arith, top-le i)) (omega arith) small (inr (omega arith))
        ∙ ground (
          arith,
          get_node-set_node hashes nodes tree_id d 0 i 0 i (leaf i),
          node-leaf hashes leaf i,
        )

    filled_sibling :
        (r : ℕ)
        → r < top i
        → path i r % 2 ≡ 0
        → at hashes nodes tree_id leaf filled r (path i r + 1)
          ≡ ok (node hashes leaf i r (path i r + 1))
    unfolding filled
    filled_sibling r h even =
        fill_empty-null hashes nodes tree_id i small (top i) 0 i
          (set_node hashes nodes tree_id d 0 i (leaf i)) refl (omega (arith, top-le i))
          (λ below r' _ lower h' odd even'.
            leaf_set r' (path i r' + 1) (omega (arith, top-le i)) (omega (arith, path-le i r'))
              (inl (omega arith))
            ∙ empty_before below r' lower (omega arith) odd even')
          r (omega arith) (omega arith) even
        ∙ sym (ap ok (node_empty hashes leaf i r (path i r + 1) (omega arith)))

    off_leaf : (r c : ℕ) → c ≢ path i r → (r ≢ 0) ⊎ (c ≢ i)
    off_leaf zero c off = inr off
    off_leaf (suc r) c off = inl (omega arith)

    filled_other :
        (r c : ℕ)
        → Stored i r c
        → c ≢ path i r
        → c ≢ path i r + 1
        → at hashes nodes tree_id leaf filled r c ≡ ok (node hashes leaf i r c)
    unfolding filled
    filled_other r c s off next =
        let (hr, hc) = Stored-bounds i r c small s in
        fill_empty-other hashes nodes tree_id i small (top i) 0 i
          (set_node hashes nodes tree_id d 0 i (leaf i)) r c refl (omega (arith, top-le i)) hr hc
          (inr next)
        ∙ leaf_set r c hr hc (off_leaf r c off)
        ∙ old r c (Stored-before r c s off next)
        ∙ sym (ap ok (node_stable hashes leaf last r c off))

    not_root : (r c : ℕ) → Stored i r c → c ≡ path i r + 1 → r < top i
    not_root r c s next = omega arith

    even_path : (r c : ℕ) → Stored i r c → c ≡ path i r + 1 → path i r % 2 ≡ 0
    even_path r c s next = omega arith

    filled-Below :
        (r c : ℕ)
        → Stored i r c
        → (c ≢ path i r) ⊎ (r < 1)
        → at hashes nodes tree_id leaf filled r c ≡ ok (node hashes leaf i r c)
    filled-Below r c s away = elim (ℕ_discrete c (path i r)) [
      | yes on ↦
          let low : r ≡ 0 = elim away [ inl n ↦ absurd (n on) | inr l ↦ omega arith ] in
          let first : c ≡ i = on ∙ ap (path i) low in rw (low, first) filled-leaf
      | no off ↦ elim (ℕ_discrete c (path i r + 1)) [
        | yes next ↦ rw next (filled_sibling r (not_root r c s next) (even_path r c s next))
        | no away' ↦ filled_other r c s off away'
      ]
    ]

    -- A leaf added to the tree of the ones before it gives the tree of all, and its root hash.
    pub add_leaf-next :
        (d' : nodes.Db) × (add_leaf hashes nodes tree_id i (leaf i) d
          ≡ ok (node hashes leaf i (top i) 0, d'))
        × Represents hashes nodes tree_id leaf i d'
    unfolding add_leaf filled
    add_leaf-next =
        let (d', run, good) =
          merge_up-Represents hashes nodes tree_id leaf fits i small (top i) 1 0 (i / 2) filled refl
            refl (zero-add (top i)) filled-Below in
        let less_one : top i + 1 - 1 ≡ top i = omega arith in
        let root = good (top i) 0 (inr (refl, refl)) in
        (d', rw (size_to_height-top i small) (rw less_one (rw run (rw root))), good)

  -- The first leaf, in whatever database.
  pub add_leaf-first :
      (d : nodes.Db)
      → (d' : nodes.Db) × (add_leaf hashes nodes tree_id 0 (leaf 0) d
          ≡ ok (node hashes leaf 0 (top 0) 0, d'))
        × Represents hashes nodes tree_id leaf 0 d'
  unfolding add_leaf fill_empty merge_up
  add_leaf-first d =
      let d' = set_node hashes nodes tree_id d 0 0 (leaf 0) in
      let holds : at hashes nodes tree_id leaf d' 0 0 ≡ ok (node hashes leaf 0 0 0) = ground (
        arith,
        get_node-set_node hashes nodes tree_id d 0 0 0 0 (leaf 0),
        node-leaf hashes leaf 0,
      ) in
      (
        d',
        rw (size_to_height-top 0 (omega arith)) (rw top-zero (rw holds)),
        λ r c s.
            let row : r ≡ 0 = omega (arith, top-zero) in
            let col : c ≡ 0 = omega (arith, top-zero) in rw (row, col) holds,
      )

  -- Adding up to 2 ^ 32 leaves of 32 bytes in order, to any database, does not throw; the database then holds
  -- at every stored position the hash that the leaves determine, and the returned hash is that of
  -- the root.
  pub add_leaves-Represents :
      (last : ℕ) (d : nodes.Db)
      → last < 2 ^ 32
      → (d' : nodes.Db) × (add_leaves hashes nodes tree_id leaf last d
          ≡ ok (node hashes leaf last (top last) 0, d'))
        × Represents hashes nodes tree_id leaf last d'
  unfolding add_leaves
  add_leaves-Represents zero d small = add_leaf-first d
  add_leaves-Represents (suc last) d small =
      let (before, run, old) = add_leaves-Represents last d (omega arith) in
      let (d', run', new) = add_leaf-next last small before old in (d', rw run run', new)
