-- ===== src/Merkle/Examples.antt =====
-- Runs of the Merkle tree, and its theorems at concrete inputs.
use carmentis_node.Base.{
  ℕ, zero, suc, ◌+◌, ◌%◌, ◌≡◌, refl, ◌⊎◌, true, Bytes, length, arith, ok, thrown, [], ◌∷◌,
  replicate, get_elem?, some, sum, bytes_eq,
}
use carmentis_node.Base.Maps.{Map, find, insert, find-insert}
use carmentis_node.Merkle.{
  Nodes, Hashes, MerkleProof, bit_length, verify_rows, merge_hashes, buffer_set, size_to_height,
  get_proof, verify_proof,
}
use carmentis_node.Merkle.Merging.{digest}
use carmentis_node.Merkle.Height.{top}
use carmentis_node.Merkle.Shape.{node}
use carmentis_node.Merkle.Insert.{Represents, add_leaves, add_leaves-Represents}
use carmentis_node.Merkle.Soundness.{Collision, verify_proof_sound}
use carmentis_node.Merkle.Laws.{get_proof-verify_proof}

abbrev memory : Nodes
memory = record {
  Db = Map Bytes;
  get_merkle_node = λ d k. find k d;
  put_merkle_node = λ d k v. insert k v d;
  get-put = λ d k j v. find-insert k j v d;
}

-- A toy hash of 32 bytes.
abbrev toy : Hashes
toy = record {
  sha256 = λ b. sum b % 256 ∷ replicate 31 0;
  null_hash = replicate 32 0;
  sha256-length = λ b. refl;
  null_hash-length = refl;
}

abbrev id : Bytes
id = replicate 32 9

abbrev leaf : ℕ → Bytes
leaf n = (n + 1) ∷ replicate 31 0

leaf-length : (n : ℕ) → length (leaf n) ≡ 32
leaf-length n = refl

heights :
    (size_to_height 1 ≡ ok 1)
    × (size_to_height 2 ≡ ok 2)
    × (size_to_height 3 ≡ ok 3)
    × (size_to_height 4 ≡ ok 3)
    × (size_to_height 5 ≡ ok 4)
    × (size_to_height 0 ≡ thrown)
unfolding size_to_height bit_length
heights = (refl, refl, refl, refl, refl, refl)

add_leaves-Represents_example :
    (d : Map Bytes) × (add_leaves toy memory id leaf 2 [] ≡ ok (node toy leaf 2 (top 2) 0, d))
    × Represents toy memory id leaf 2 d
add_leaves-Represents_example =
    add_leaves-Represents toy memory id leaf leaf-length 2 [] (omega arith)

get_proof-verify_proof_example :
    (root : Bytes) × (after : Map Bytes) × (p : MerkleProof) × (add_leaves toy memory id leaf 2 []
      ≡ ok (root, after))
    × (get_proof toy memory id 1 3 after ≡ ok p)
    × (verify_proof toy p ≡ ok true)
    × (p.leaf_hash ≡ leaf 1)
    × (p.root_hash ≡ root)
get_proof-verify_proof_example =
    get_proof-verify_proof toy memory id leaf leaf-length 2 1 [] (omega arith) (omega arith)

-- The proof for the first of two leaves.
abbrev pair_proof : MerkleProof
pair_proof = record {
  size = 2;
  leaf_index = 0;
  leaf_hash = leaf 0;
  root_hash = 3 ∷ replicate 31 0;
  witnesses = leaf 1 ∷ [];
}

pair_proof-witnesses :
    (k : ℕ) (w : Bytes) → get_elem? pair_proof.witnesses k ≡ some w → length w ≡ 32
pair_proof-witnesses zero w e = ground arith
pair_proof-witnesses (suc k) w e = ground arith

pair_proof-accepted : verify_proof toy pair_proof ≡ ok true
unfolding verify_proof verify_rows size_to_height bit_length merge_hashes buffer_set bytes_eq
pair_proof-accepted = refl

pair_proof-root : pair_proof.root_hash ≡ node toy leaf 1 (top 1) 0
unfolding node top bit_length digest
pair_proof-root = refl

verify_proof_sound_example : (pair_proof.leaf_hash ≡ leaf 0) ⊎ Collision toy
verify_proof_sound_example =
    verify_proof_sound toy leaf 1 pair_proof leaf-length (omega arith) refl pair_proof-root
      (omega arith) refl pair_proof-witnesses pair_proof-accepted
