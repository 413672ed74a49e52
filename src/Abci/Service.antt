-- ===== src/Abci/Service.antt =====
-- The calls of CometBFT (`CheckTx`, `PrepareProposal`, `ProcessProposal`, `FinalizeBlock` and
-- `Commit` of AbciService.ts).
use carmentis_node.Base.{
  ℕ, ◌*◌, Bool, true, false, not, ◌||◌, ◌&&◌, Option, none, some, List, [], ◌∷◌, Bytes, length,
  replicate, ltb, leb, ◌==◌, if◌then◌else◌, Result, ok, thrown,
}
use carmentis_node.Base.Effects.{
  Action, done, failed, pure, throw_when, lift, read, modify, ◌>>=◌, ◌>>◌,
}
use carmentis_node.Database.Stores.{Database}
use carmentis_node.Accounts.Sdk.{Radix}
use carmentis_node.GlobalState.Types.{
  Microblock, VirtualBlockchain, CometParameters, CometValidatorSetUpdate, Updater, Node, NodeSdk,
}
use carmentis_node.GlobalState.State.{get_protocol_state, genesis_seed_of, genesis_seed_exists}
use carmentis_node.GlobalState.Days.{update_global_state_on_block}
use carmentis_node.GlobalState.Microblocks.{update_global_state_on_microblock}
use carmentis_node.GlobalState.Blocks.{FinalizeRequest, finalize_block_approval, clear_caches}
use carmentis_node.Abci.Runs.{
  Entry, Proposal, Limits, total_size, should_be_rejected, sort_by_fees, propose, process, finalize,
}

-- What the service takes from the SDK: the decoding of a microblock and its signature, and the
-- checks of `MicroblockConsistencyChecker`, of which the first gives the virtual blockchain.
pub record ServiceSdk (db : Database) : Type 0 where
  pub load_from_serialized_microblock : Bytes → Result Microblock
  pub is_signed : Microblock → Bool
  pub check_virtual_blockchain_consistency : Node db → Microblock → Result VirtualBlockchain
  pub check_timestamp : Microblock → ℕ → Result (Unit {0})
  pub check_gas : Node db → Microblock → Result (Unit {0})

-- The configuration of the node; `none` is a limit that is not a positive integer.
pub record NodeConfig : Type 0 where
  pub max_microblocks_per_block : Option ℕ
  pub min_microblock_gas_price : ℕ

-- What `FinalizeBlock` answers.
pub record FinalizeResponse : Type 0 where
  pub tx_results : List ℕ
  pub app_hash : Bytes
  pub validator_updates : List CometValidatorSetUpdate

abbrev pub minimum : ℕ → ℕ → ℕ
minimum a b = if leb a b then a else b

-- `maxMicroblocksPerBlock`
unfoldable pub max_microblocks : Option ℕ → ℕ → ℕ
max_microblocks none protocol_level = minimum protocol_level protocol_level
max_microblocks (some config_level) protocol_level =
    if ltb 0 config_level
    then minimum config_level protocol_level
    else minimum protocol_level protocol_level

module _ (db : Database) (sdk : NodeSdk db) (radix : Radix db) (service : ServiceSdk db) where
  -- `checkGenesisSeedUniquenessOrFail`
  unfoldable pub check_genesis_seed_uniqueness : Microblock → Action (Node db) (Unit {0})
  check_genesis_seed_uniqueness mb = do
    exists ← read (λ n. genesis_seed_exists db sdk n.world.store (genesis_seed_of db sdk mb))
    throw_when ((mb.height == 1) && exists)

  -- `checkMicroblockLocalStateConsistency`: an error is an answer that is not checked.
  unfoldable pub check_microblock_local_state_consistency :
      Microblock → ℕ → Action (Node db) VirtualBlockchain
  unfolding check_genesis_seed_uniqueness
  check_microblock_local_state_consistency mb reference_timestamp = do
    check_genesis_seed_uniqueness mb
    checked ← read (λ n. service.check_virtual_blockchain_consistency n mb)
    vb ← lift checked
    _ ← lift (service.check_timestamp mb reference_timestamp)
    gas ← read (λ n. service.check_gas n mb)
    _ ← lift gas
    pure vb

  -- A microblock that is parsed: the body of the three loops, up to the answer that it gives.
  unfoldable pub handle_microblock :
      CometParameters → Microblock → Bytes → Action (Node db) (Unit {0})
  handle_microblock p mb tx = do
    vb ← check_microblock_local_state_consistency mb p.block_timestamp
    update_global_state_on_microblock db sdk radix vb mb p tx

  unfoldable pub handle_transaction : CometParameters → Bytes → Action (Node db) (Unit {0})
  handle_transaction p tx = do
    mb ← lift (service.load_from_serialized_microblock tx)
    handle_microblock p mb tx

  -- `CheckTx`: whether the code is `OK`.
  unfoldable pub check_tx : NodeConfig → List Bytes → Bytes → ℕ → Node db → Bool
  check_tx config should_reject tx reference_timestamp n =
      elim (service.load_from_serialized_microblock tx) [
        | thrown ↦ false
        | ok mb ↦
            if should_be_rejected mb.hash should_reject
            then false
            else if not (service.is_signed mb)
            then false
            else if ltb mb.gas_price config.min_microblock_gas_price
            then false
            else elim (check_microblock_local_state_consistency mb reference_timestamp n) [
              | done vb n' ↦ true
              | failed n' ↦ false
            ]
      ]

  -- The first step of `PrepareProposal`.
  unfoldable pub decode_transactions : List Bytes → List Bytes → List (Entry Microblock)
  decode_transactions should_reject [] = []
  decode_transactions should_reject (tx ∷ txs) =
      let rest = decode_transactions should_reject txs in
      elim (service.load_from_serialized_microblock tx) [
        | thrown ↦ rest
        | ok mb ↦
            if should_be_rejected mb.hash should_reject
            then rest
            else record { microblock = mb; tx = tx; fees_in_atomics = mb.gas * mb.gas_price } ∷ rest
      ]

  abbrev pub new_updater : Updater
  new_updater = record {
    validator_set_updates = [];
    new_object_counts = replicate sdk.n_virtual_blockchains 0;
    processed_and_accepted_microblocks = [];
    total_fees = 0;
    block_size_in_bytes = 0;
    block_section_count = 0;
  }

  -- `GlobalStateUpdaterFactory.createGlobalStateUpdater()`
  abbrev pub create_updater : Action (Node db) (Unit {0})
  create_updater = modify (λ n. record n { updater = new_updater })

  -- The limits of `PrepareProposal`.
  unfoldable pub proposal_limits : NodeConfig → Node db → Limits
  unfolding max_microblocks
  proposal_limits config n =
      let protocol = get_protocol_state db sdk n.world.store in
      record {
        max_microblocks_per_block =
            max_microblocks config.max_microblocks_per_block protocol.max_microblocks_per_block;
        max_block_size = protocol.maximum_block_size_in_bytes;
      }

  -- The last loop of `PrepareProposal`, from an empty proposal.
  abbrev pub fill_proposal :
      CometParameters → Limits → List (Entry Microblock) → List Bytes → Node db → Proposal × Node db
  fill_proposal p limits entries should_reject n =
      propose (λ mb. mb.hash) (handle_microblock p) limits entries
        (record {
          proposed_txs = [];
          current_block_size_in_bytes = 0;
          should_reject = should_reject;
        })
        n

  -- `PrepareProposal`, on a new working state: the transactions, and the microblocks to reject.
  unfoldable pub prepare_proposal :
      NodeConfig
      → CometParameters
      → List Bytes
      → List Bytes
      → Action (Node db) (List Bytes × List Bytes)
  prepare_proposal config p txs should_reject = do
    clear_caches db sdk radix
    let entries = sort_by_fees (decode_transactions should_reject txs)
    limits ← read (λ n. proposal_limits config n)
    create_updater
    update_global_state_on_block db sdk radix p
    λ n.
        let filled = fill_proposal p limits entries should_reject n in
        done (filled.0.proposed_txs, filled.0.should_reject) filled.1

  -- The limits of the protocol, in `ProcessProposal`.
  unfoldable pub exceeds_limits : List Bytes → Node db → Bool
  exceeds_limits txs n =
      let protocol = get_protocol_state db sdk n.world.store in
      ltb protocol.max_microblocks_per_block (length txs)
      || ltb protocol.maximum_block_size_in_bytes (total_size txs)

  -- `ProcessProposal`, on a new working state: whether the status is `ACCEPT`.
  unfoldable pub process_proposal : CometParameters → List Bytes → Action (Node db) Bool
  process_proposal p txs = do
    clear_caches db sdk radix
    exceeds ← read (λ n. exceeds_limits txs n)
    if exceeds then pure false else (do
      create_updater
      update_global_state_on_block db sdk radix p
      λ n. let ran = process (handle_transaction p) txs n in done ran.0 ran.1)

  -- The part of `FinalizeBlock` before `finalizeBlockApproval`: the codes of the results.
  unfoldable pub execute_block : CometParameters → List Bytes → Action (Node db) (List ℕ)
  execute_block p txs = do
    clear_caches db sdk radix
    create_updater
    update_global_state_on_block db sdk radix p
    λ n. let ran = finalize (handle_transaction p) txs n in done ran.0 ran.1

  -- `FinalizeBlock`
  unfoldable pub finalize_block :
      CometParameters → FinalizeRequest → Action (Node db) FinalizeResponse
  finalize_block p request = do
    tx_results ← execute_block p request.txs
    app_hash ← finalize_block_approval db sdk radix request
    validator_updates ← read (λ n. n.updater.validator_set_updates)
    pure (record {
      tx_results = tx_results;
      app_hash = app_hash;
      validator_updates = validator_updates;
    })
