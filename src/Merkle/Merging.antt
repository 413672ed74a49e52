-- ===== src/Merkle/Merging.antt =====
-- `mergeHashes` on two hashes of 32 bytes.
use carmentis_node.Base.{
  ℕ, ◌+◌, ◌≡◌, refl, ap, ◌∙◌, sym, Bytes, arith, ok, false, [], ◌++◌, length, drop, length-append,
  replicate, ltb,
}
use mathlib.Core.List.{append-nil}
use native.Mathlib.Nat.{add-zero}
use carmentis_node.Base.Cuts.{take-append, drop-append}
use carmentis_node.Merkle.{Hashes, buffer_set, merge_hashes}

-- A write over a part of the same length.
pub buffer_set-append :
    (a m z r : Bytes) (n : ℕ)
    → length a ≡ n
    → length m ≡ length r
    → buffer_set (a ++ (m ++ z)) n r ≡ ok (a ++ (r ++ z))
unfolding buffer_set
buffer_set-append a m z r n ha hm =
    let room : ltb (length (a ++ (m ++ z))) (n + length r) ≡ false =
      ground (arith, length-append a (m ++ z), length-append m z) in
    let after : drop (n + length r) (a ++ (m ++ z)) ≡ z =
      drop-append a (m ++ z) n (length r) ha
      ∙ ap (λ k. drop k (m ++ z)) (sym (add-zero (length r)))
      ∙ drop-append m z (length r) 0 hm in
    rw room (rw after (rw (take-append a (m ++ z) n ha)))

module _ (hashes : Hashes) where
  -- The hash of two child hashes.
  unfoldable pub digest : Bytes → Bytes → Bytes
  digest left right = hashes.sha256 (left ++ right)

  pub length-digest : (l r : Bytes) → length (digest l r) ≡ 32
  unfolding digest
  length-digest l r = hashes.sha256-length (l ++ r)

  pub merge_hashes-digest :
      (l r : Bytes) → length l ≡ 32 → length r ≡ 32 → merge_hashes hashes l r ≡ ok (digest l r)
  unfolding merge_hashes digest
  merge_hashes-digest l r hl hr =
      let zeros : Bytes = replicate 32 0 in
      let first : buffer_set (zeros ++ zeros) 0 l ≡ ok (l ++ zeros) =
        buffer_set-append [] zeros zeros l 0 refl (sym hl) in
      let second : buffer_set (l ++ zeros) 32 r ≡ ok (l ++ r) =
        rw (append-nil zeros, append-nil r) at (buffer_set-append l zeros [] r 32 hl (sym hr)) in
      rw first (rw second)
