-- ===== src/GlobalState/Types.antt =====
-- What the state of the node and its updates are made of (GlobalState.ts, GlobalStateUpdater.ts,
-- types/valibot/db/db.ts), and what they take from the SDK.
use carmentis_node.Base.{ℕ, ◌%◌, ◌≡◌, Bool, Option, List, Bytes, Result}
use carmentis_node.Base.Maps.{Map}
use carmentis_node.Database.Stores.{Table, Database}
use carmentis_node.Accounts.Sdk.{Sdk}
use carmentis_node.Accounts.State.{World}
use carmentis_node.Accounts.Staking.{ProtocolState}
use carmentis_node.Merkle.{Hashes}
use carmentis_node.RadixTree.Nodes.{RadixSdk}
use carmentis_node.Storage.Files.{Disk}
use carmentis_node.Storage.Cached.{BufferedTransactions, StorageSdk}

-- `ValidatorSet`, an entry of the table of that name; a text is its bytes.
pub record ValidatorSet : Type 0 where
  pub validator_node_hash : Bytes
  pub public_key_type : Bytes
  pub public_key_bytes : Bytes
  pub voting_power : ℕ

-- `CometValidatorSetUpdate`; a type of key that has no name on the other side is `undefined`.
pub record CometValidatorSetUpdate : Type 0 where
  pub power : ℕ
  pub pub_key_type : Option Bytes
  pub pub_key_bytes : Bytes

-- `ProcessedMicroblock`
pub record ProcessedMicroblock : Type 0 where
  pub hash : Bytes
  pub vb_id : Bytes
  pub vb_type : ℕ
  pub height : ℕ
  pub size : ℕ
  pub section_count : ℕ

-- `ChainInformation`
pub record ChainInformation : Type 0 where
  pub height : ℕ
  pub last_block_timestamp : ℕ
  pub microblock_count : ℕ
  pub object_counts : List ℕ
  pub protocol_virtual_blockchain_id : Bytes

-- `ApplicationStateHashes` and `BlockInformation`
pub record ApplicationStateHashes : Type 0 where
  pub vb_radix_hash : Bytes
  pub token_radix_hash : Bytes
  pub radix_hash : Bytes
  pub storage_hash : Bytes
  pub app_hash : Bytes

pub record BlockInformation : Type 0 where
  pub hash : Bytes
  pub timestamp : ℕ
  pub proposer_address : Bytes
  pub application_state_hashes : ApplicationStateHashes
  pub size : ℕ
  pub microblock_count : ℕ

-- `GlobalStateUpdateCometParameters`; of a misbehavior the address of its validator is read.
pub record CometParameters : Type 0 where
  pub block_height : ℕ
  pub block_timestamp : ℕ
  pub block_misbehaviors : List (Option Bytes)

-- What is read of the state of the protocol.
pub record Protocol : Type 0 where
  pub staking : ProtocolState
  pub organization_id : Bytes
  pub maximum_block_size_in_bytes : ℕ
  pub max_microblocks_per_block : ℕ

-- The sections that the updates read, by their types.
pub data Section : Type 0 where
  account_token_issuance : ℕ → Section
  account_creation : Bytes → ℕ → Section
  account_transfer : Bytes → ℕ → Bytes → Bytes → Section
  account_stake account_unstake : ℕ → ℕ → Bytes → Section
  account_escrow_transfer : Bytes → ℕ → Bytes → Bytes → ℕ → Bytes → Bytes → Section
  account_escrow_settlement : Bytes → Bool → Section
  account_vesting_transfer : Bytes → ℕ → ℕ → ℕ → Bytes → Bytes → Section
  vn_cometbft_public_key_declaration : Bytes → Section
  vn_approval vn_slashing_cancellation protocol_creation other_section : Section

pub record Microblock : Type 0 where
  pub hash : Bytes
  pub previous_hash : Bytes
  pub height : ℕ
  pub timestamp : ℕ
  pub gas : ℕ
  pub gas_price : ℕ
  pub fees_payer_account : Option Bytes
  pub sections : List Section

-- What is read of the virtual blockchain of a validator node: its identifier, the account of its
-- organization, its approval, and the type and the bytes of the key that it has declared last.
pub record ValidatorNode : Type 0 where
  pub id : Bytes
  pub organization_account : Result Bytes
  pub approved : Bool
  pub public_key_declaration : Result (Bytes × Bytes)

-- The classes of virtual blockchains: an account is given with its public key.
pub data VbClass : Type 0 where
  account_vb : Result Bytes → VbClass
  validator_node_vb : ValidatorNode → VbClass
  protocol_vb other_vb : VbClass

-- `getSerializedVirtualBlockchainState` depends on the root hash that `setMerkleRootHash` sets.
pub record VirtualBlockchain : Type 0 where
  pub class_ : VbClass
  pub id : Bytes
  pub kind : ℕ
  pub height : ℕ
  pub expiration_day : ℕ
  pub is_account_id_allowed_to_write : Bytes → Bool
  pub serialized_state : Bytes → Bytes

-- The fields of `GlobalStateUpdater`.
pub record Updater : Type 0 where
  pub validator_set_updates : List CometValidatorSetUpdate
  pub new_object_counts : List ℕ
  pub processed_and_accepted_microblocks : List ProcessedMicroblock
  pub total_fees : ℕ
  pub block_size_in_bytes : ℕ
  pub block_section_count : ℕ

-- A `GlobalState` and the updater that works on it: the cached database with the modified accounts,
-- the database below it, the cached storage, and the day of the next cleaning.
pub record Node (db : Database) : Type 0 where
  pub world : World db
  pub committed : db.Store
  pub content_to_be_written : Map BufferedTransactions
  pub cached_microblocks : Map Bytes
  pub disk : Disk
  pub new_day_timestamp : ℕ
  pub updater : Updater

pub record NodeSdk (db : Database) : Type 1 where
  pub accounts : Sdk
  pub storage : StorageSdk
  pub radix : RadixSdk
  pub hashes : Hashes
  -- `getKeys` of the database, and `processChallenge` over the files and the committed database
  pub get_keys : db.Store → Table → List Bytes
  pub process_challenge : Disk → db.Store → Bytes → Result Bytes
  -- the virtual blockchains, loaded from the database and the storage
  pub load_validator_node : Node db → Bytes → Result ValidatorNode
  pub load_organization_account : Node db → Bytes → Result Bytes
  pub load_account_public_key : Node db → Bytes → Result Bytes
  pub verify : Microblock → Bytes → Bool
  -- keys and heights
  pub comet_address : Bytes → Bytes
  pub decode_base64 : Bytes → Result Bytes
  pub chain_information_key : Bytes
  pub convert_height_to_table_key : ℕ → Bytes
  pub atomics_per_token : ℕ
  -- the codecs
  pub encode_validator_set : ValidatorSet → Bytes
  pub decode_validator_set : Bytes → ValidatorSet
  pub decode-encode_validator_set :
      (v : ValidatorSet) → decode_validator_set (encode_validator_set v) ≡ v
  pub encode_chain_information : ChainInformation → Bytes
  pub decode_chain_information : Bytes → ChainInformation
  pub decode-encode_chain_information :
      (c : ChainInformation) → decode_chain_information (encode_chain_information c) ≡ c
  pub encode_block_information : BlockInformation → Bytes
  pub decode_block_information : Bytes → BlockInformation
  pub decode-encode_block_information :
      (b : BlockInformation) → decode_block_information (encode_block_information b) ≡ b
  pub encode_block_content : List ProcessedMicroblock → Bytes
  pub encode_modified_accounts : List Bytes → Bytes
  pub encode_microblock_information : Microblock → Bytes → ℕ → Bytes
  pub decode_protocol : Bytes → Result Protocol
  pub initial_protocol : Protocol
  -- what the transfers are built from
  pub escrow_terms : Bytes → Bytes → Bytes → ℕ → ℕ → accounts.EscrowTerms
  pub vesting_terms : ℕ → ℕ → ℕ → ℕ → accounts.Vesting
  pub section_reference : Bytes → ℕ → accounts.ChainReference
  pub microblock_reference : Bytes → accounts.ChainReference
  pub account_block_fees : Bytes
  pub bk_sent_payment : ℕ
  pub bk_sent_escrow : ℕ
  pub bk_sent_vesting : ℕ
  pub bk_paid_tx_fees : ℕ
  pub bk_paid_block_fees : ℕ
  pub vb_protocol : ℕ
  pub vb_validator_node : ℕ
  pub application_ledger_vb : ℕ
  pub n_virtual_blockchains : ℕ
  -- a payment takes from its payer
  pub bk_paid_tx_fees-even : bk_paid_tx_fees % 2 ≡ 0
  pub bk_paid_block_fees-even : bk_paid_block_fees % 2 ≡ 0
