-- ===== src/StateProof.antt =====
-- Proofs of the state against the hashes of the last block
-- (src/carmentis/abci/stateProof/StateProof.ts).
pub mod Laws
mod Examples
use carmentis_node.Base.{
  arith, ℕ, ◌-◌, ◌≡◌, Bool, true, false, not, Option, none, some, List, [], ◌∷◌, ◌++◌, Bytes,
  bytes_eq, Result, ok, thrown, throw_if, ◌>>=◌, ◌>>◌, if◌then◌else◌,
}
use carmentis_node.Database.Stores.{Table, Database}
use carmentis_node.Merkle.{Nodes, Hashes, MerkleProof, get_tree_proof}
use carmentis_node.Merkle.Tables.{table_nodes}
use carmentis_node.RadixTree.Nodes.{RadixSdk}
use carmentis_node.RadixTree.Read.{get_pair}

-- `applicationStateHashes` of a block.
pub record ApplicationHashes : Type 0 where
  pub vb_radix_hash : Bytes
  pub token_radix_hash : Bytes
  pub storage_hash : Bytes
  pub app_hash : Bytes

-- What is read of `MicroblockInformation` and of the state of a virtual blockchain.
pub record MicroblockInformation : Type 0 where
  pub virtual_blockchain_id : Bytes
  pub height : ℕ

pub record VbState : Type 0 where
  pub height : ℕ
  pub merkle_root_hash : Bytes

-- The two trees hash alike. The codecs, of which only the height of `ChainInformation` is read here, and the keys.
pub record ProofSdk : Type 1 where
  pub hashes : Hashes
  pub radix : RadixSdk
  pub same_sha256 : (b : Bytes) → RadixSdk.sha256 radix b ≡ Hashes.sha256 hashes b
  pub chain_information_key : Bytes
  pub convert_height_to_table_key : ℕ → Bytes
  pub decode_chain_height : Bytes → ℕ
  pub decode_application_hashes : Bytes → ApplicationHashes
  pub decode_microblock_information : Bytes → MicroblockInformation
  pub decode_vb_state : Bytes → VbState
  pub State : Type 0
  pub encode_state : State → Bytes
  pub decode_state : Bytes → State

pub record ChainState : Type 0 where
  pub chain_height : ℕ
  pub application_hashes : ApplicationHashes

pub record MicroblockProof : Type 0 where
  pub block : ChainState
  pub virtual_blockchain_id : Bytes
  pub height : ℕ
  pub hash : Bytes
  pub state : VbState
  pub merkle_witnesses : List Bytes
  pub radix_proof : List Bytes

pub record AccountProof (State : Type 0) : Type 0 where
  pub block : ChainState
  pub virtual_blockchain_id : Bytes
  pub state : State
  pub radix_proof : List Bytes

-- `if (x === undefined) throw …`
abbrev pub or_fail : {A : Type 0} → Option A → Result A
or_fail none = thrown
or_fail (some a) = ok a

-- `proof[0]`, of which the hash is taken
abbrev pub first_node : List Bytes → Result Bytes
first_node [] = thrown
first_node (node ∷ proof) = ok node

module _ (sdk : ProofSdk) (db : Database) where
  abbrev pub sha256 : Bytes → Bytes
  sha256 = Hashes.sha256 sdk.hashes

  -- The height of `getChainInformation`
  unfoldable pub get_chain_height : db.Store → ℕ
  get_chain_height s = elim (db.get_raw s Table.chain_information sdk.chain_information_key) [
    | none ↦ 0
    | some serialized ↦ sdk.decode_chain_height serialized
  ]

  -- `getBlockInformation`
  abbrev pub get_block_information : db.Store → ℕ → Option ApplicationHashes
  get_block_information s height =
      elim (db.get_raw s Table.block_information (sdk.convert_height_to_table_key height)) [
        | none ↦ none
        | some serialized ↦ some (sdk.decode_application_hashes serialized)
      ]

  -- `getMicroblockInformation`
  abbrev pub get_microblock_information : db.Store → Bytes → Option MicroblockInformation
  get_microblock_information s hash = elim (db.get_raw s Table.microblock_vb_information hash) [
    | none ↦ none
    | some serialized ↦ some (sdk.decode_microblock_information serialized)
  ]

  -- The hash of the application's state, from its three parts.
  abbrev pub computed_app_hash : ApplicationHashes → Bytes
  computed_app_hash h = sha256 (sha256 (h.vb_radix_hash ++ h.token_radix_hash) ++ h.storage_hash)

  -- `getChainState`
  unfoldable pub get_chain_state : db.Store → Result ChainState
  unfolding get_chain_height
  get_chain_state s = do
    let chain_height = get_chain_height s
    hashes ← or_fail (get_block_information s chain_height)
    throw_if (not (bytes_eq (computed_app_hash hashes) hashes.app_hash))
    ok (record { chain_height = chain_height; application_hashes = hashes })

  -- The proof of a radix tree, for a value and a root hash that are known.
  unfoldable pub radix_proof_of : db.Store → Table → Bytes → Bytes → Bytes → Result (List Bytes)
  radix_proof_of s table key root_hash value = do
    (radix_value, radix_proof) ← get_pair sdk.radix db table s key
    root ← first_node radix_proof
    found ← or_fail radix_value
    throw_if (not (bytes_eq root_hash (sha256 root)))
    throw_if (not (bytes_eq found value))
    ok radix_proof

  -- `createMicroblockProof`; the heights of microblocks start at one
  unfoldable pub create_microblock_proof : db.Store → Bytes → Result MicroblockProof
  unfolding get_chain_state radix_proof_of
  create_microblock_proof s microblock_hash = do
    chain ← get_chain_state s
    info ← or_fail (get_microblock_information s microblock_hash)
    serialized ← or_fail (db.get_raw s Table.virtual_blockchain_state info.virtual_blockchain_id)
    let vb_state = sdk.decode_vb_state serialized
    merkle_proof ←
        get_tree_proof sdk.hashes (table_nodes db) info.virtual_blockchain_id (info.height - 1)
          vb_state.height s
    throw_if (not (bytes_eq merkle_proof.root_hash vb_state.merkle_root_hash))
    radix_proof ←
        radix_proof_of s Table.vb_radix info.virtual_blockchain_id
          chain.application_hashes.vb_radix_hash (sha256 serialized)
    ok (record {
      block = chain;
      virtual_blockchain_id = info.virtual_blockchain_id;
      height = info.height;
      hash = microblock_hash;
      state = vb_state;
      merkle_witnesses = merkle_proof.witnesses;
      radix_proof = radix_proof;
    })

  -- `createAccountProof`
  unfoldable pub create_account_proof : db.Store → Bytes → Result (AccountProof sdk.State)
  unfolding get_chain_state radix_proof_of
  create_account_proof s account_hash = do
    chain ← get_chain_state s
    encoded ← or_fail (db.get_raw s Table.account_state account_hash)
    let account_state = sdk.decode_state encoded
    radix_proof ←
        radix_proof_of s Table.token_radix account_hash chain.application_hashes.token_radix_hash
          (sha256 (sdk.encode_state account_state))
    ok (record {
      block = chain;
      virtual_blockchain_id = account_hash;
      state = account_state;
      radix_proof = radix_proof;
    })
