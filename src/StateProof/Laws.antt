-- ===== src/StateProof/Laws.antt =====
-- What a proof that was made is consistent with (StateProof.ts).
use mathlib.Core.Path.{subst}
use carmentis_node.Base.{
  sym, ◌*◌, ok_injective, ◌-◌, ◌≡◌, refl, sym, ◌∙◌, Bool, true, false, not, Option, none, some,
  List, [], ◌∷◌, Bytes, bytes_eq, bytes_eq_iff, Result, ok, throw_if, ◌>>◌, >>=-eq-ok, arith,
}
use carmentis_node.Database.Stores.{Table, Database}
use carmentis_node.Merkle.{MerkleProof, get_tree_proof}
use carmentis_node.Merkle.Tables.{table_nodes}
use carmentis_node.RadixTree.Read.{get_pair}
use carmentis_node.RadixTree.Paths.{IsPath, IsPath-head, IsHashed, IsGrown, get_pair-IsPath}
use carmentis_node.StateProof.{
  ProofSdk, ChainState, MicroblockProof, AccountProof, or_fail, first_node, sha256,
  get_block_information, get_chain_height, get_microblock_information, computed_app_hash,
  get_chain_state, radix_proof_of, create_microblock_proof, create_account_proof,
}

throw_if-eq_ok :
    {B : Type 0} (c : Bool) (next : Result B) {b : B}
    → (throw_if c >> next) ≡ ok b
    → (c ≡ false) × (next ≡ ok b)
throw_if-eq_ok true next h = cc
throw_if-eq_ok false next h = (refl, h)

or_fail-eq_ok : {A : Type 0} (o : Option A) {a : A} → or_fail o ≡ ok a → o ≡ some a
or_fail-eq_ok none h = cc
or_fail-eq_ok (some b) h = cc

first_node-eq_ok :
    (proof : List Bytes) {node : Bytes}
    → first_node proof ≡ ok node
    → (rest : List Bytes) × (proof ≡ node ∷ rest)
first_node-eq_ok [] h = cc
first_node-eq_ok (n ∷ proof) h = (proof, ground (arith, h))

module _ (sdk : ProofSdk) (db : Database) where
  get_chain_state-eq_ok :
      (s : db.Store) (chain : ChainState)
      → get_chain_state sdk db s ≡ ok chain
      → (get_block_information sdk db s chain.chain_height ≡ some chain.application_hashes)
        × (computed_app_hash sdk db chain.application_hashes ≡ chain.application_hashes.app_hash)
  unfolding get_chain_state
  get_chain_state-eq_ok s chain e =
      let height = get_chain_height sdk db s in
      let (hashes, found, e1) = >>=-eq-ok (or_fail (get_block_information sdk db s height)) _ e in
      let (same, e2) =
        throw_if-eq_ok (not (bytes_eq (computed_app_hash sdk db hashes) hashes.app_hash)) _ e1 in
      (
        ground (arith, or_fail-eq_ok (get_block_information sdk db s height) found, e2),
        ground (arith, same, e2, bytes_eq_iff (computed_app_hash sdk db hashes) hashes.app_hash),
      )

  -- A tree that is not empty, with every node under its hash.
  abbrev pub IsTree : db.Store → Table → Type 0
  IsTree s table = IsHashed sdk.radix db table s × IsGrown sdk.radix db table s

  -- Nodes that lead from the hash of a root to a value, as a reader checks them without the tree.
  abbrev pub IsRadixProof : Bytes → Bytes → Bytes → List Bytes → Type 0
  IsRadixProof key root_hash value radix_proof =
      IsPath sdk.radix (sdk.radix.hash_size * 2) key root_hash radix_proof value

  radix_proof_of-eq_ok :
      (s : db.Store) (table : Table) (key root_hash value : Bytes) (radix_proof : List Bytes)
      → IsTree s table
      → radix_proof_of sdk db s table key root_hash value ≡ ok radix_proof
      → IsRadixProof key root_hash value radix_proof
  unfolding radix_proof_of
  radix_proof_of-eq_ok s table key root_hash value radix_proof (hashed, grown) e =
      let ((radix_value, proof), got, e1) = >>=-eq-ok (get_pair sdk.radix db table s key) _ e in
      let (root, first, e2) = >>=-eq-ok (first_node proof) _ e1 in
      let (found, is_found, e3) = >>=-eq-ok (or_fail radix_value) _ e2 in
      let (same_root, e4) = throw_if-eq_ok (not (bytes_eq root_hash (sha256 sdk db root))) _ e3 in
      let (same_value, e5) = throw_if-eq_ok (not (bytes_eq found value)) _ e4 in
      let (rest, begins) = first_node-eq_ok proof first in
      let read : get_pair sdk.radix db table s key ≡ ok (some value, radix_proof) = ground (
        arith,
        got,
        or_fail-eq_ok radix_value is_found,
        same_value,
        e5,
        bytes_eq_iff found value,
      ) in
      let all : radix_proof ≡ root ∷ rest = ground (arith, begins, e5) in
      let (stored_hash, is_stored, path) =
        get_pair-IsPath sdk.radix db table s key value radix_proof hashed grown read in
      let head : sdk.radix.sha256 root ≡ stored_hash =
        IsPath-head sdk.radix (sdk.radix.hash_size * 2) key stored_hash root rest value (
          subst (λ l. IsPath sdk.radix (sdk.radix.hash_size * 2) key stored_hash l value) all
            path) in
      let declared : sha256 sdk db root ≡ root_hash =
        ground (arith, same_root, bytes_eq_iff root_hash (sha256 sdk db root)) in
      subst (λ h. IsPath sdk.radix (sdk.radix.hash_size * 2) key h radix_proof value)
        (sym head ∙ sdk.same_sha256 root ∙ declared) path

  -- A proof of an account holds the stored state of the account. Its block is the one stored at
  -- its height, whose hashes add up to the hash of the application; its nodes lead from the block's hash of the
  -- radix tree of the accounts to the hash of the state.
  abbrev pub IsAccountProof : db.Store → Bytes → AccountProof sdk.State → Type 0
  IsAccountProof s account_hash p =
      (encoded : Bytes) × (db.get_raw s Table.account_state account_hash ≡ some encoded)
      × (p.state ≡ sdk.decode_state encoded)
      × (get_block_information sdk db s p.block.chain_height ≡ some p.block.application_hashes)
      × (computed_app_hash sdk db p.block.application_hashes ≡ p.block.application_hashes.app_hash)
      × IsRadixProof account_hash p.block.application_hashes.token_radix_hash
          (sha256 sdk db (sdk.encode_state p.state)) p.radix_proof

  -- Where every node of the radix tree of the accounts is stored under its hash, and the tree is not
  -- empty, a proof of an account that was made holds the stored state of the account and the hashes
  -- of the block stored at its height, which add up to the hash of the application; its nodes lead,
  -- by their own hashes alone, from the block's hash of that tree along the account's identifier to
  -- the hash of the state.
  pub create_account_proof-IsAccountProof :
      (s : db.Store) (account_hash : Bytes) (p : AccountProof sdk.State)
      → IsTree s Table.token_radix
      → create_account_proof sdk db s account_hash ≡ ok p
      → IsAccountProof s account_hash p
  unfolding create_account_proof
  create_account_proof-IsAccountProof s account_hash p tree e =
      let (chain, at_block, e1) = >>=-eq-ok (get_chain_state sdk db s) _ e in
      let (encoded, stored, e2) =
        >>=-eq-ok (or_fail (db.get_raw s Table.account_state account_hash)) _ e1 in
      let (radix_proof, on_path, e3) =
        >>=-eq-ok
          (radix_proof_of sdk db s Table.token_radix account_hash
            chain.application_hashes.token_radix_hash
            (sha256 sdk db (sdk.encode_state (sdk.decode_state encoded))))
          _ e2 in
      let built : record {
        block = chain;
        virtual_blockchain_id = account_hash;
        state = sdk.decode_state encoded;
        radix_proof = radix_proof;
      }
          ≡ p =
        ok_injective e3 in
      let (block, app) = get_chain_state-eq_ok s chain at_block in
      let path =
        radix_proof_of-eq_ok s Table.token_radix account_hash
          chain.application_hashes.token_radix_hash
          (sha256 sdk db (sdk.encode_state (sdk.decode_state encoded))) radix_proof tree on_path in
      subst (IsAccountProof s account_hash) built (
        encoded,
        or_fail-eq_ok (db.get_raw s Table.account_state account_hash) stored,
        refl,
        block,
        app,
        path,
      )

  -- The same of a microblock, and of the Merkle tree of its virtual blockchain.
  abbrev pub IsMicroblockProof : db.Store → Bytes → MicroblockProof → Type 0
  IsMicroblockProof s microblock_hash p =
      (serialized : Bytes) × (m : MerkleProof) × (get_microblock_information sdk db s
          microblock_hash
        ≡ some (record { virtual_blockchain_id = p.virtual_blockchain_id; height = p.height }))
      × (db.get_raw s Table.virtual_blockchain_state p.virtual_blockchain_id ≡ some serialized)
      × (p.state ≡ sdk.decode_vb_state serialized)
      × (get_tree_proof sdk.hashes (table_nodes db) p.virtual_blockchain_id (p.height - 1)
            p.state.height s
          ≡ ok m)
      × (m.root_hash ≡ p.state.merkle_root_hash)
      × (p.merkle_witnesses ≡ m.witnesses)
      × (get_block_information sdk db s p.block.chain_height ≡ some p.block.application_hashes)
      × (computed_app_hash sdk db p.block.application_hashes ≡ p.block.application_hashes.app_hash)
      × IsRadixProof p.virtual_blockchain_id p.block.application_hashes.vb_radix_hash
          (sha256 sdk db serialized) p.radix_proof

  -- A proof of a microblock that was made holds the stored state of its virtual blockchain, the
  -- witnesses of a Merkle proof for the microblock's place with the root hash of that state, and the
  -- hashes of the block stored at its height, which add up to the hash of the application; its path
  -- in the radix tree of the virtual blockchains leads from a node with the block's hash of that
  -- tree to the hash of the state.
  pub create_microblock_proof-IsMicroblockProof :
      (s : db.Store) (microblock_hash : Bytes) (p : MicroblockProof)
      → IsTree s Table.vb_radix
      → create_microblock_proof sdk db s microblock_hash ≡ ok p
      → IsMicroblockProof s microblock_hash p
  unfolding create_microblock_proof
  create_microblock_proof-IsMicroblockProof s microblock_hash p tree e =
      let (chain, at_block, e1) = >>=-eq-ok (get_chain_state sdk db s) _ e in
      let (info, is_info, e2) =
        >>=-eq-ok (or_fail (get_microblock_information sdk db s microblock_hash)) _ e1 in
      let vb = info.virtual_blockchain_id in
      let (serialized, stored, e3) =
        >>=-eq-ok (or_fail (db.get_raw s Table.virtual_blockchain_state vb)) _ e2 in
      let vb_state = sdk.decode_vb_state serialized in
      let (m, proved, e4) =
        >>=-eq-ok
          (get_tree_proof sdk.hashes (table_nodes db) vb (info.height - 1) vb_state.height s) _
          e3 in
      let (same_root, e5) =
        throw_if-eq_ok (not (bytes_eq m.root_hash vb_state.merkle_root_hash)) _ e4 in
      let (radix_proof, on_path, e6) =
        >>=-eq-ok
          (radix_proof_of sdk db s Table.vb_radix vb chain.application_hashes.vb_radix_hash
            (sha256 sdk db serialized))
          _ e5 in
      let (block, app) = get_chain_state-eq_ok s chain at_block in
      let path =
        radix_proof_of-eq_ok s Table.vb_radix vb chain.application_hashes.vb_radix_hash
          (sha256 sdk db serialized) radix_proof tree on_path in
      subst (IsMicroblockProof s microblock_hash) (ok_injective e6) (
        serialized,
        m,
        or_fail-eq_ok (get_microblock_information sdk db s microblock_hash) is_info,
        or_fail-eq_ok (db.get_raw s Table.virtual_blockchain_state vb) stored,
        refl,
        proved,
        ground (arith, same_root, bytes_eq_iff m.root_hash vb_state.merkle_root_hash),
        refl,
        block,
        app,
        path,
      )
