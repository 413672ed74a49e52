-- ===== src/GlobalState/State.antt =====
-- What the global state reads and stores (GlobalState.ts, and the accessors of AbstractLevelDb.ts
-- that it calls).
use carmentis_node.Base.{
  arith, false, ◌≡◌, ℕ, ◌-◌, Bool, true, not, Option, none, some, List, [], Bytes, bytes_eq, drop,
  length, ◌==◌, if◌then◌else◌, Result, ok, thrown, is_some, replicate,
}
use carmentis_node.Base.Effects.{done, failed, Action, pure, throw_when, read, modify, ◌>>=◌, ◌>>◌}
use carmentis_node.Database.Stores.{Table, Database}
use carmentis_node.Accounts.State.{World}
use carmentis_node.Merkle.{add_tree_leaf}
use carmentis_node.RadixTree.Write.{set_pair}
use carmentis_node.Storage.Cached.{CachedStorage, add_microblock_to_buffer}
use carmentis_node.Merkle.Tables.{table_nodes}
use carmentis_node.GlobalState.Types.{
  ValidatorSet, ChainInformation, BlockInformation, Protocol, Microblock, VirtualBlockchain,
  ProcessedMicroblock, Node, NodeSdk,
}

-- The new day of the cleaning: `setNewDayTimestamp`.
abbrev pub set_new_day_timestamp : {db : Database} → ℕ → Action (Node db) (Unit {0})
set_new_day_timestamp day = modify (λ n. record n { new_day_timestamp = day })

abbrev pub with_store : {db : Database} → Node db → db.Store → Node db
with_store n s = record n { world = record n.world { store = s } }

-- A call of the account manager.
abbrev pub on_world : {db : Database} {A : Type 0} → Action (World db) A → Action (Node db) A
on_world act n = elim (act n.world) [
  | done a w ↦ done a (record n { world = w })
  | failed w ↦ failed (record n { world = w })
]

-- A call that writes to the database alone.
abbrev pub on_store : {db : Database} {A : Type 0} → Action db.Store A → Action (Node db) A
on_store act n = elim (act n.world.store) [
  | done a s ↦ done a (with_store n s)
  | failed s ↦ failed (with_store n s)
]

-- The cached storage, over the cached database.
abbrev pub cached_storage : {db : Database} → Node db → CachedStorage db
cached_storage n = record {
  content_to_be_written = n.content_to_be_written;
  cached_microblocks = n.cached_microblocks;
  store = n.world.store;
  disk = n.disk;
}

abbrev pub with_storage : {db : Database} → Node db → CachedStorage db → Node db
with_storage n s = record n {
  world = record n.world { store = s.store };
  content_to_be_written = s.content_to_be_written;
  cached_microblocks = s.cached_microblocks;
  disk = s.disk;
}

module _ (db : Database) (sdk : NodeSdk db) where
  -- `putRaw`
  abbrev pub put_entry : Table → Bytes → Bytes → Action (Node db) (Unit {0})
  put_entry t k v = modify (λ n. with_store n (db.put_raw n.world.store t k v))

  -- `getChainInformation`, with its default
  unfoldable pub get_chain_information : db.Store → ChainInformation
  get_chain_information s = elim (db.get_raw s Table.chain_information sdk.chain_information_key) [
    | none ↦ record {
      height = 0;
      last_block_timestamp = 0;
      microblock_count = 0;
      object_counts = replicate sdk.n_virtual_blockchains 0;
      protocol_virtual_blockchain_id = sdk.accounts.null_hash;
    }
    | some serialized ↦ sdk.decode_chain_information serialized
  ]

  -- `putChainInformation`
  abbrev pub put_chain_information : ChainInformation → Action (Node db) (Unit {0})
  put_chain_information information =
      put_entry Table.chain_information sdk.chain_information_key
        (sdk.encode_chain_information information)

  -- `getBlockInformation` and `putBlockInformation`
  unfoldable pub get_block_information : db.Store → ℕ → Option BlockInformation
  get_block_information s height =
      elim (db.get_raw s Table.block_information (sdk.convert_height_to_table_key height)) [
        | none ↦ none
        | some serialized ↦ some (sdk.decode_block_information serialized)
      ]

  abbrev pub put_block_information : ℕ → BlockInformation → Action (Node db) (Unit {0})
  put_block_information height information =
      put_entry Table.block_information (sdk.convert_height_to_table_key height)
        (sdk.encode_block_information information)

  -- `putBlockContent` and `putBlockModifiedAccounts`
  abbrev pub put_block_content : ℕ → List ProcessedMicroblock → Action (Node db) (Unit {0})
  put_block_content height microblocks =
      put_entry Table.block_content (sdk.convert_height_to_table_key height)
        (sdk.encode_block_content microblocks)

  abbrev pub put_block_modified_accounts : ℕ → List Bytes → Action (Node db) (Unit {0})
  put_block_modified_accounts height accounts =
      put_entry Table.block_modified_accounts (sdk.convert_height_to_table_key height)
        (sdk.encode_modified_accounts accounts)

  -- `getBlockContent(height) !== undefined`
  abbrev pub has_block_content : db.Store → ℕ → Bool
  has_block_content s height =
      is_some (db.get_raw s Table.block_content (sdk.convert_height_to_table_key height))

  -- `getValidatorSet` and `putValidatorSet`
  unfoldable pub get_validator_set : db.Store → Bytes → Option ValidatorSet
  get_validator_set s address = elim (db.get_raw s Table.validator_set address) [
    | none ↦ none
    | some response ↦ some (sdk.decode_validator_set response)
  ]

  unfoldable pub put_validator_set : Bytes → ValidatorSet → Action (Node db) (Unit {0})
  put_validator_set address validator_set = do
    throw_when (not (length address == 20))
    throw_when (not (length validator_set.validator_node_hash == 32))
    put_entry Table.validator_set address (sdk.encode_validator_set validator_set)

  -- `getProtocolVirtualBlockchainIdentifier`
  unfoldable pub get_protocol_virtual_blockchain_identifier : db.Store → Result Bytes
  unfolding get_chain_information
  get_protocol_virtual_blockchain_identifier s =
      let id = (get_chain_information s).protocol_virtual_blockchain_id in
      if bytes_eq id sdk.accounts.null_hash then thrown else ok id

  -- The body of the `try` in `getProtocolState`.
  unfoldable pub load_protocol_state : db.Store → Result Protocol
  load_protocol_state s = elim (get_protocol_virtual_blockchain_identifier s) [
    | thrown ↦ thrown
    | ok id ↦ elim (db.get_raw s Table.virtual_blockchain_state id) [
      | none ↦ ok sdk.initial_protocol
      | some serialized ↦ sdk.decode_protocol serialized
    ]
  ]

  -- `getProtocolState`, as a call: every error is caught, and gives the initial state.
  abbrev pub try_protocol_state : db.Store → Result Protocol
  try_protocol_state s = elim (load_protocol_state s) [
    | thrown ↦ ok sdk.initial_protocol
    | ok protocol ↦ ok protocol
  ]

  -- Its value
  unfoldable pub get_protocol_state : db.Store → Protocol
  unfolding load_protocol_state
  get_protocol_state s = elim (try_protocol_state s) [
    | thrown ↦ sdk.initial_protocol
    | ok protocol ↦ protocol
  ]

  -- `isProtocolVbDefined`: whether `getProtocolState` returns.
  unfoldable pub is_protocol_vb_defined : db.Store → Bool
  is_protocol_vb_defined s = elim (try_protocol_state s) [ thrown ↦ false | ok protocol ↦ true ]

  -- It does return, since it catches what is thrown.
  pub is_protocol_vb_defined-true : (s : db.Store) → is_protocol_vb_defined s ≡ true
  unfolding is_protocol_vb_defined
  is_protocol_vb_defined-true s = ground arith

  -- `storeProtocolVirtualBlockchainIdentifier`
  unfoldable pub store_protocol_virtual_blockchain_identifier : Bytes → Action (Node db) (Unit {0})
  unfolding get_chain_information
  store_protocol_virtual_blockchain_identifier identifier = do
    information ← read (λ n. get_chain_information n.world.store)
    throw_when (not (bytes_eq information.protocol_virtual_blockchain_id sdk.accounts.null_hash))
    put_chain_information (record information { protocol_virtual_blockchain_id = identifier })

  -- `storeNodeVirtualBlockchainIndex`
  abbrev pub store_node_virtual_blockchain_index : Bytes → Action (Node db) (Unit {0})
  store_node_virtual_blockchain_index identifier = put_entry Table.validator_index identifier []

  -- The seed of a first microblock: `getPreviousHash().toBytes().slice(8)`
  abbrev pub genesis_seed_of : Microblock → Bytes
  genesis_seed_of microblock = drop 8 microblock.previous_hash

  -- `genesisSeedExists`
  abbrev pub genesis_seed_exists : db.Store → Bytes → Bool
  genesis_seed_exists s seed = is_some (db.get_raw s Table.genesis_seed seed)

  -- `storeMicroblockHashInMerkleTree`: the new root hash
  unfoldable pub store_microblock_hash_in_merkle_tree :
      VirtualBlockchain → Microblock → Action (Node db) Bytes
  store_microblock_hash_in_merkle_tree vb microblock n =
      elim (add_tree_leaf sdk.hashes (table_nodes db) vb.id (microblock.height - 1) microblock.hash
        n.world.store) [ thrown ↦ failed n | ok added ↦ done added.0 (with_store n added.1) ]

  -- `storeVirtualBlockchainState`, with the root hash that was set
  unfoldable pub store_virtual_blockchain_state :
      VirtualBlockchain → Bytes → Action (Node db) (Unit {0})
  store_virtual_blockchain_state vb root_hash = do
    let serialized = vb.serialized_state root_hash
    on_store (set_pair sdk.radix db Table.vb_radix vb.id (sdk.accounts.sha256 serialized))
    put_entry Table.virtual_blockchain_state vb.id serialized

  -- `storeMicroblock`
  unfoldable pub store_microblock :
      ℕ → VirtualBlockchain → Microblock → Bytes → Action (Node db) (Unit {0})
  store_microblock expiration_day vb microblock transaction = do
    modify (λ n. with_storage n (
        add_microblock_to_buffer sdk.storage db expiration_day microblock.hash transaction
          (cached_storage n)))
    put_entry Table.microblock_vb_information microblock.hash
        (sdk.encode_microblock_information microblock vb.id vb.kind)
    if microblock.height == 1
        then put_entry Table.genesis_seed (genesis_seed_of microblock) []
        else pure tt
