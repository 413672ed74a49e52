-- ===== src/Merkle/Soundness.antt =====
-- `verifyProof`: a proof that it accepts against the root of the tree holds the tree's leaf, or
-- shows two texts with the same SHA-256.
use native.Mathlib.Nat.{zero-add}
use carmentis_node.Base.{
  ℕ, zero, suc, ◌+◌, ◌-◌, ◌*◌, ◌/◌, ◌^◌, ◌≤◌, ◌<◌, ◌≡◌, ◌≢◌, ◌⊎◌, inl, inr, true, some, none, List,
  ◌++◌, Bytes, length, arith, ok, thrown, ◌∙◌, ap, sym, ◌>>=◌, >>=-eq-ok, get_elem?, bytes_eq,
  bytes_eq_iff, ok_injective, ok-ne-thrown, Bool-cases, Option-cases,
}
use carmentis_node.Base.Cuts.{append_cancel}
use carmentis_node.Merkle.{Hashes, MerkleProof, verify_rows, verify_proof}
use carmentis_node.Merkle.Height.{path, top, path-top, path_mono, size_to_height-top}
use carmentis_node.Merkle.Shape.{node, node-leaf_le, length-node}
use carmentis_node.Merkle.Merging.{digest, length-digest, merge_hashes-digest}
use carmentis_node.Merkle.Proofs.{merged, verify_rows-suc, right_side, left_side, side, parent}

-- Two texts with the same hash.
abbrev pub Collision : Hashes → Type 0
Collision hashes = (a b : Bytes) × (a ≢ b) × (hashes.sha256 a ≡ hashes.sha256 b)

module _ (hashes : Hashes) where
  digest_injective :
      (a b c d : Bytes)
      → length a ≡ length c
      → digest hashes a b ≡ digest hashes c d
      → ((a ≡ c) × (b ≡ d)) ⊎ Collision hashes
  unfolding digest
  digest_injective a b c d h e = elim (Bool-cases (bytes_eq (a ++ b) (c ++ d))) [
    | inl same ↦ inl (append_cancel a b c d h ((bytes_eq_iff (a ++ b) (c ++ d)).0 same))
    | inr apart ↦ inr (a ++ b, c ++ d, λ q. cc (apart, (bytes_eq_iff (a ++ b) (c ++ d)).1 q), e)
  ]

  module _ (leaf : ℕ → Bytes) (last index : ℕ) (small : last < 2 ^ 32) (within : index ≤ last)
      (fits : (n : ℕ) → length (leaf n) ≡ 32) where
    abbrev own : ℕ → Bytes
    own row = node hashes leaf last row (path index row)

    merged-length :
        (row : ℕ) (witness current : Bytes)
        → length witness ≡ 32
        → length current ≡ 32
        → (next : Bytes) × (merged hashes leaf last index row witness current ≡ ok next)
          × (length next ≡ 32)
    merged-length row witness current hw hc = elim (side hashes leaf last index row (omega arith)) [
      | right_side odd l r ↦ (
        digest hashes witness current,
        rw odd (merge_hashes-digest hashes witness current hw hc),
        length-digest hashes witness current,
      )
      | left_side even l r ↦ (
        digest hashes current witness,
        rw even (merge_hashes-digest hashes current witness hc hw),
        length-digest hashes current witness,
      )
    ]

    -- If merging gives the next node of the path, then what was merged is the node of the path.
    merged_injective :
        (row : ℕ) (witness current : Bytes)
        → length witness ≡ 32
        → length current ≡ 32
        → merged hashes leaf last index row witness current ≡ ok (own (row + 1))
        → (current ≡ own row) ⊎ Collision hashes
    merged_injective row witness current hw hc e =
        let p = path index row in
        let low = node hashes leaf last row (p / 2 * 2) in
        let high = node hashes leaf last row (p / 2 * 2 + 1) in
        let low_length = length-node hashes leaf fits last row (p / 2 * 2) in
        let up = parent hashes leaf last index small within row in
        elim (side hashes leaf last index row (omega arith)) [
          | right_side odd l r ↦
              let made = merge_hashes-digest hashes witness current hw hc in
              let same : digest hashes witness current ≡ digest hashes low high =
                ok_injective (sym made ∙ rw odd at e) ∙ sym up in
              elim (digest_injective witness current low high (hw ∙ sym low_length) same) [
                | inl both ↦ inl (both.1 ∙ sym (ap (node hashes leaf last row) r))
                | inr c ↦ inr c
              ]
          | left_side even l r ↦
              let made = merge_hashes-digest hashes current witness hc hw in
              let same : digest hashes current witness ≡ digest hashes low high =
                ok_injective (sym made ∙ rw even at e) ∙ sym up in
              elim (digest_injective current witness low high (hc ∙ sym low_length) same) [
                | inl both ↦ inl (both.0 ∙ sym (ap (node hashes leaf last row) l))
                | inr c ↦ inr c
              ]
        ]

    verify_rows-missing :
        (rounds row : ℕ) (witnesses : List Bytes) (current : Bytes)
        → get_elem? witnesses row ≡ none
        → verify_rows hashes (suc rounds) row index witnesses current ≡ thrown
    unfolding verify_rows
    verify_rows-missing rounds row witnesses current missing = ground (arith, missing)

    -- The same for all the rows that are left.
    verify_rows_sound :
        (rounds row : ℕ) (witnesses : List Bytes) (current : Bytes)
        → row + rounds ≡ top last
        → ((k : ℕ) (w : Bytes) → get_elem? witnesses k ≡ some w → length w ≡ 32)
        → length current ≡ 32
        → verify_rows hashes rounds row index witnesses current
          ≡ ok (node hashes leaf last (top last) 0)
        → (current ≡ own row) ⊎ Collision hashes
    unfolding verify_rows
    verify_rows_sound zero row witnesses current e sizes hc run =
        let end : row ≡ top last = omega arith in
        let col : path index row ≡ 0 =
          omega (arith, path_mono index last row within, path-top last row small (omega arith)) in
        inl (ok_injective run ∙ cc (end, col))
    verify_rows_sound (suc rounds) row witnesses current e sizes hc run =
        elim (Option-cases (get_elem? witnesses row)) [
          | inl missing ↦
              absurd (
                ok-ne-thrown (sym (verify_rows-missing rounds row witnesses current missing) ∙ run))
          | inr (w, found) ↦
              let hw = sizes row w found in
              let (next, made, hn) = merged-length row w current hw hc in
              let rest =
                sym (verify_rows-suc hashes leaf last index rounds row witnesses w current found)
                ∙ run in
              elim (verify_rows_sound rounds (row + 1) witnesses next (omega arith) sizes hn
                (rw made at rest)) [
                  | inl good ↦ merged_injective row w current hw hc (made ∙ ap ok good)
                  | inr c ↦ inr c
                ]
        ]

  verify_proof-eq :
      (p : MerkleProof) (last : ℕ)
      → last < 2 ^ 32
      → p.size ≡ last + 1
      → verify_proof hashes p ≡ (
          verify_rows hashes (top last) 0 p.leaf_index p.witnesses p.leaf_hash >>= λ current.
          ok (bytes_eq current p.root_hash))
  unfolding verify_proof
  verify_proof-eq p last small size =
      let less_one : top last + 1 - 1 ≡ top last = omega arith in
      rw size (rw (size_to_height-top last small) (rw less_one))

  -- A proof that `verifyProof` accepts, with the size and root hash of the tree of the leaves
  -- 0 … `last`, an index below the size and hashes of 32 bytes, holds the tree's leaf at that index,
  -- or two texts with the same SHA-256 are at hand.
  pub verify_proof_sound :
      (leaf : ℕ → Bytes) (last : ℕ) (p : MerkleProof)
      → ((n : ℕ) → length (leaf n) ≡ 32)
      → last < 2 ^ 32
      → p.size ≡ last + 1
      → p.root_hash ≡ node hashes leaf last (top last) 0
      → p.leaf_index ≤ last
      → length p.leaf_hash ≡ 32
      → ((k : ℕ) (w : Bytes) → get_elem? p.witnesses k ≡ some w → length w ≡ 32)
      → verify_proof hashes p ≡ ok true
      → (p.leaf_hash ≡ leaf p.leaf_index) ⊎ Collision hashes
  verify_proof_sound leaf last p fits small size root within hl sizes run =
      let (current, rows, same) =
        >>=-eq-ok (verify_rows hashes (top last) 0 p.leaf_index p.witnesses p.leaf_hash)
          (λ current. ok (bytes_eq current p.root_hash))
          (sym (verify_proof-eq p last small size) ∙ run) in
      let end = (bytes_eq_iff current p.root_hash).0 (ok_injective same) ∙ root in
      elim (verify_rows_sound leaf last p.leaf_index small within fits (top last) 0 p.witnesses
        p.leaf_hash (zero-add (top last)) sizes hl (rows ∙ ap ok end)) [
          | inl good ↦ inl (good ∙ node-leaf_le hashes leaf last p.leaf_index within)
          | inr c ↦ inr c
        ]
