-- ===== src/StateProof/Examples.antt =====
-- A proof of an account at a concrete state.
use mathlib.Core.Path.{subst}
use carmentis_node.RadixTree.Paths.{IsGrown}
use carmentis_node.Base.{
  zero, suc, Option, ok_injective, bytes_eq_iff, inr, arith, inl, Bool-cases, false, some, true, ℕ,
  ◌+◌, ◌≡◌, refl, not, none, [], ◌∷◌, Bytes, bytes_eq, ◌==◌, if◌then◌else◌, ok, get_or, replicate,
}
use carmentis_node.Base.Maps.{find}
use carmentis_node.Database.Memory.{Tables, memory}
use carmentis_node.Database.Stores.{Table, table_id}
use carmentis_node.Merkle.{Hashes}
use carmentis_node.RadixTree.Nodes.{some_nonzero, RadixSdk}
use carmentis_node.RadixTree.Read.{get_pair, read_value, get_from_storage}
use carmentis_node.StateProof.{
  ApplicationHashes, ProofSdk, AccountProof, get_chain_state, get_chain_height, radix_proof_of,
  create_account_proof,
}
use carmentis_node.StateProof.Laws.{IsTree, IsAccountProof, create_account_proof-IsAccountProof}

-- A hash is the sum of the first and the third byte, and 31 zeros.
abbrev hashes : Hashes
hashes = record {
  sha256 = λ b. (get_or b 0 0 + get_or b 2 0) ∷ replicate 31 0;
  null_hash = replicate 32 0;
  sha256-length = λ b. refl;
  null_hash-length = refl;
}

abbrev radix : RadixSdk
radix = record {
  sha256 = λ b. (get_or b 0 0 + get_or b 2 0) ∷ replicate 31 0;
  hash_size = 1;
  root_anchoring_hash = 0 ∷ [];
  get_hash_list = λ msk node. replicate 16 none;
  key_difference = λ depth key node. not (get_or key 0 0 == get_or node 2 0);
  get_hash_list-length = λ msk node. refl;
}

abbrev leaf_hash : Bytes
leaf_hash = 0x35 ∷ replicate 31 0

abbrev application_hashes : ApplicationHashes
application_hashes = record {
  vb_radix_hash = 7 ∷ [];
  token_radix_hash = leaf_hash;
  storage_hash = 3 ∷ [];
  app_hash = 7 ∷ replicate 31 0;
}

abbrev sdk : ProofSdk
sdk = record {
  hashes = hashes;
  radix = radix;
  same_sha256 = λ b. refl;
  chain_information_key = 67 ∷ [];
  convert_height_to_table_key = λ height. height ∷ [];
  decode_chain_height = λ b. get_or b 0 0;
  decode_application_hashes = λ b. application_hashes;
  decode_microblock_information = λ b. record { virtual_blockchain_id = b; height = 1 };
  decode_vb_state = λ b. record { height = 1; merkle_root_hash = b };
  State = Bytes;
  encode_state = λ b. b;
  decode_state = λ b. b;
}

-- The leaf of the account 0x35, with the hash of its state.
abbrev leaf : Bytes
leaf = 0 ∷ 0 ∷ 0x35 ∷ 1 ∷ replicate 31 0

-- At height 12 the account 0x35 has the state 1, 2.
abbrev tables : Tables
tables u =
    if u == 0x00
    then (67 ∷ [], 12 ∷ []) ∷ []
    else if u == 0x03
    then (0 ∷ [], leaf_hash) ∷ (leaf_hash, leaf) ∷ []
    else if u == 0x04
    then (12 ∷ [], []) ∷ []
    else if u == 0x0a
    then (0x35 ∷ [], 1 ∷ 2 ∷ []) ∷ []
    else []

abbrev account_proof : AccountProof Bytes
account_proof = record {
  block = record { chain_height = 12; application_hashes = application_hashes };
  virtual_blockchain_id = 0x35 ∷ [];
  state = 1 ∷ 2 ∷ [];
  radix_proof = leaf ∷ [];
}

account_proof-created : create_account_proof sdk memory tables (0x35 ∷ []) ≡ ok account_proof
unfolding create_account_proof get_chain_state get_chain_height radix_proof_of get_pair read_value
    get_from_storage find table_id bytes_eq
account_proof-created = refl

root_entry-zero : (hash : Bytes) → bytes_eq (0 ∷ []) hash ≡ true → some_nonzero hash ≡ false
unfolding some_nonzero
root_entry-zero hash h = subst (λ b. some_nonzero b ≡ false) ((bytes_eq_iff (0 ∷ []) hash).0 h) refl

-- The one node of the tree is the leaf.
accounts-leaf :
    (hash node : Bytes)
    → some_nonzero hash ≡ true
    → get_from_storage radix memory Table.token_radix tables hash ≡ ok node
    → (leaf_hash ≡ hash) × (leaf ≡ node)
unfolding get_from_storage find table_id
accounts-leaf hash node proper found = elim (Bool-cases (bytes_eq (0 ∷ []) hash)) [
  | inl root ↦ ground (arith, root_entry-zero hash root, proper)
  | inr other ↦ elim (Bool-cases (bytes_eq leaf_hash hash)) [
    | inl here ↦ ((bytes_eq_iff leaf_hash hash).0 here, ground (arith, other, here, found))
    | inr absent ↦ ground (arith, other, absent, proper, found)
  ]
]

no_child : (n i : ℕ) → get_or (replicate {A = Option Bytes} n none) i none ≡ none
no_child zero i = refl
no_child (suc n) zero = refl
no_child (suc n) (suc i) = no_child n i

leaf-childless :
    (i : ℕ) (child : Bytes) → get_or (replicate {A = Option Bytes} 16 none) i none ≡ some child → ⊥
leaf-childless i child h = cc (h, no_child 16 i)

accounts-IsGrown : IsGrown radix memory Table.token_radix tables
unfolding get_from_storage find table_id bytes_eq some_nonzero
accounts-IsGrown root_hash found = subst (λ b. some_nonzero b ≡ true) (ok_injective found) refl

accounts-IsTree : IsTree sdk memory tables Table.token_radix
accounts-IsTree = (
  λ hash node proper found.
      let (is_hash, is_leaf) = accounts-leaf hash node proper found in
      (
        subst (λ b. radix.sha256 b ≡ hash) is_leaf is_hash,
        λ i child here. absurd (leaf-childless i child here),
      ),
  accounts-IsGrown,
)

create_account_proof-IsAccountProof_example :
    IsAccountProof sdk memory tables (0x35 ∷ []) account_proof
create_account_proof-IsAccountProof_example =
    create_account_proof-IsAccountProof sdk memory tables (0x35 ∷ []) account_proof accounts-IsTree
      account_proof-created
