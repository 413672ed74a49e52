-- ===== src/RadixTree/Nodes.antt =====
-- The bytes of the nodes of a radix tree (RadixTree.ts).
use carmentis_node.Base.{
  ℕ, suc, ◌+◌, ◌-◌, ◌*◌, ◌/◌, ◌%◌, ◌^◌, ◌≡◌, Bool, false, ◌||◌, Option, none, some, List, [], ◌∷◌,
  Bytes, ltb, ◌==◌, if◌then◌else◌, Result, ok, thrown, ◌>>=◌, length, get_or, set, take, drop,
  replicate,
}
use carmentis_node.Base.Cuts.{overwrite}

-- `RadixUtils`, `RADIX_CST` and SHA-256. The list of the hashes of a node has a place for each
-- nibble.
pub record RadixSdk : Type 0 where
  pub sha256 : Bytes → Bytes
  pub hash_size : ℕ
  pub root_anchoring_hash : Bytes
  pub get_hash_list : ℕ → Bytes → List (Option Bytes)
  pub key_difference : ℕ → Bytes → Bytes → Bool
  pub get_hash_list-length : (msk : ℕ) (node : Bytes) → length (get_hash_list msk node) ≡ 16

-- `array.some(v => v)`
unfoldable pub some_nonzero : Bytes → Bool
some_nonzero [] = false
some_nonzero (b ∷ l) = ltb 0 b || some_nonzero l

-- `node.set(part, offset)`, which throws where the part does not fit
unfoldable pub put_part : Bytes → ℕ → Bytes → Result Bytes
put_part node offset part =
    if ltb (length node) (offset + length part) then thrown else ok (overwrite node offset part)

-- `(node[0] << 8) | node[1]`
abbrev pub mask_of : Bytes → ℕ
mask_of node = get_or node 0 0 * 256 + get_or node 1 0

-- `(bytes[i] >> (4 * (depth & 1))) & 0xf`
abbrev pub nibble_at : Bytes → ℕ → ℕ → ℕ
nibble_at bytes i depth = (get_or bytes i 0 / (16 ^ (depth % 2))) % 16

-- `msk & (1 << i)` and `msk |= 1 << i`
abbrev pub has_bit : ℕ → ℕ → Bool
has_bit msk i = (msk / (2 ^ i)) % 2 == 1

abbrev pub with_bit : ℕ → ℕ → ℕ
with_bit msk i = if has_bit msk i then msk else msk + 2 ^ i

-- The hashes that are not null.
unfoldable pub count_hashes : List (Option Bytes) → ℕ
count_hashes [] = 0
count_hashes (none ∷ l) = count_hashes l
count_hashes (some hash ∷ l) = suc (count_hashes l)

module _ (sdk : RadixSdk) where
  -- `(RADIX_CST.HASH_SIZE * 2 + 1 - depth) >> 1`
  abbrev pub rest_length : ℕ → ℕ
  rest_length depth = (sdk.hash_size * 2 + 1 - depth) / 2

  -- The loop that writes the hashes of the children behind the mask.
  unfoldable pub put_hashes : ℕ → List (Option Bytes) → ℕ → ℕ → Bytes → Result Bytes
  put_hashes msk [] i ptr node = ok node
  put_hashes msk (none ∷ hashes) i ptr node =
      let rest = put_hashes msk hashes (i + 1) ptr node in if has_bit msk i then thrown else rest
  put_hashes msk (some hash ∷ hashes) i ptr node =
      let rest = put_hashes msk hashes (i + 1) ptr node in
      if has_bit msk i
      then (put_part node ptr hash >>= λ written.
          put_hashes msk hashes (i + 1) (ptr + sdk.hash_size) written)
      else rest

  -- The new bytes of a standard node.
  unfoldable pub standard_node : ℕ → List (Option Bytes) → Result Bytes
  standard_node msk hash_list =
      put_hashes msk hash_list 0 2
        (msk / 256 % 256 ∷ msk % 256 ∷ replicate (sdk.hash_size * count_hashes hash_list) 0)

  -- `node[2] ^= 0xf` at an odd depth
  abbrev pub mark_odd : ℕ → Bytes → Bytes
  mark_odd depth node =
      if depth % 2 == 1
      then (let b = get_or node 2 0 in set node 2 (b - b % 16 + (15 - b % 16)))
      else node

  -- The new bytes of an early leaf.
  unfoldable pub early_leaf : ℕ → Bytes → Bytes → Result Bytes
  early_leaf depth key value = do
    let len = rest_length depth
    with_key ← put_part (replicate (2 + sdk.hash_size + len) 0) 2 (drop (depth / 2) key)
    put_part (mark_odd depth with_key) (2 + len) value

  -- The key of an early leaf, as far as the leaf holds it.
  abbrev pub leaf_key : ℕ → Bytes → Result Bytes
  leaf_key depth node =
      let len = rest_length depth in
      put_part (replicate sdk.hash_size 0) (sdk.hash_size - len) (take len (drop 2 node))

  abbrev pub leaf_value : ℕ → Bytes → Bytes
  leaf_value depth node = take sdk.hash_size (drop (2 + rest_length depth) node)
