-- ===== src/RadixTree/Examples.antt =====
-- A radix tree over one byte, at concrete inputs.
use carmentis_node.Base.{
  ◌^◌, ◌/◌, Result, thrown, ℕ, zero, suc, ◌+◌, ◌≡◌, refl, not, Option, none, some, List, [], ◌∷◌,
  Bytes, bytes_eq, ◌==◌, if◌then◌else◌, arith, ok, length, take, drop, get_or,
}
use carmentis_node.Base.Effects.{done, state_of}
use carmentis_node.Base.Maps.{find, insert, erase}
use carmentis_node.Database.Memory.{Tables, memory}
use carmentis_node.Database.Stores.{Table, table_id, Database}
use carmentis_node.RadixTree.Nodes.{
  RadixSdk, has_bit, put_part, put_hashes, standard_node, early_leaf, count_hashes,
}
use carmentis_node.RadixTree.Read.{get_pair, read_value, get_from_storage}
use carmentis_node.RadixTree.Write.{
  write, set_pair, split_leaf, update_child, update_node, node_bytes, replace_node,
}
use carmentis_node.RadixTree.Confined.{set_pair-IsConfined}

-- The hashes of one byte behind a mask.
abbrev pub hashes : ℕ → ℕ → ℕ → Bytes → List (Option Bytes)
hashes zero msk i l = []
hashes (suc n) msk i l =
    let skipped = none ∷ hashes n msk (i + 1) l in
    let taken = some (take 1 l) ∷ hashes n msk (i + 1) (drop 1 l) in
    if has_bit msk i then taken else skipped

pub length-hashes : (n msk i : ℕ) (l : Bytes) → length (hashes n msk i l) ≡ n
length-hashes zero msk i l = refl
length-hashes (suc n) msk i l =
    ground (arith, length-hashes n msk (i + 1) l, length-hashes n msk (i + 1) (drop 1 l))

abbrev pub sdk : RadixSdk
sdk = record {
  sha256 = λ b. (get_or b 0 0 + get_or b 1 0 + get_or b 2 0 + 16) ∷ [];
  hash_size = 1;
  root_anchoring_hash = 0 ∷ [];
  get_hash_list = λ msk node. hashes 16 msk 0 (drop 2 node);
  key_difference =
      λ depth key node. not (get_or key 0 0 / 16 ^ depth == get_or node 2 0 / 16 ^ depth);
  get_hash_list-length = λ msk node. length-hashes 16 msk 0 (drop 2 node);
}

-- The root is a leaf for key 0x35, with the value 0x07.
abbrev tables : Tables
tables u =
    if u == 0x03
    then (0 ∷ [], 60 ∷ []) ∷ (60 ∷ [], 0 ∷ 0 ∷ 0x35 ∷ 7 ∷ []) ∷ []
    else if u == 0x0a
    then (1 ∷ [], 2 ∷ []) ∷ []
    else []

abbrev updated : Tables
updated = state_of (set_pair sdk memory Table.token_radix (0x35 ∷ []) (8 ∷ []) tables)

set_pair-done : set_pair sdk memory Table.token_radix (0x35 ∷ []) (8 ∷ []) tables ≡ done tt updated
unfolding set_pair write node_bytes update_node replace_node put_part get_from_storage find insert
    erase table_id bytes_eq
set_pair-done = refl

set_pair-IsConfined_example :
    Database.get_raw memory updated Table.account_state (1 ∷ []) ≡ some (2 ∷ [])
unfolding find table_id bytes_eq
set_pair-IsConfined_example =
    set_pair-IsConfined sdk memory Table.token_radix (0x35 ∷ []) (8 ∷ []) tables Table.account_state
      (1 ∷ []) refl

-- The new value is read back.
read-back :
    get_pair sdk memory Table.token_radix updated (0x35 ∷ [])
    ≡ ok (some (8 ∷ []), (0 ∷ 0 ∷ 0x35 ∷ 8 ∷ []) ∷ [])
unfolding get_pair read_value set_pair write node_bytes update_node replace_node put_part
    get_from_storage find insert erase table_id bytes_eq
read-back = refl

-- A second key splits the leaf: both values are there, and no other.
abbrev both : Tables
both = state_of (set_pair sdk memory Table.token_radix (0x46 ∷ []) (9 ∷ []) updated)

abbrev value_of : Result (Option Bytes × List Bytes) → Option Bytes
value_of thrown = none
value_of (ok found) = found.0

read-both :
    (value_of (get_pair sdk memory Table.token_radix both (0x35 ∷ [])) ≡ some (8 ∷ []))
    × (value_of (get_pair sdk memory Table.token_radix both (0x46 ∷ [])) ≡ some (9 ∷ []))
    × (value_of (get_pair sdk memory Table.token_radix both (0x47 ∷ [])) ≡ none)
unfolding get_pair read_value set_pair write node_bytes update_node update_child split_leaf
    early_leaf standard_node put_hashes count_hashes replace_node put_part get_from_storage find
    insert erase table_id bytes_eq
read-both = (refl, refl, refl)
