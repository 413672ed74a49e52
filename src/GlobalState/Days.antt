-- ===== src/GlobalState/Days.antt =====
-- What a block does before its microblocks (`updateGlobalStateOnBlock` of GlobalStateUpdater.ts).
use carmentis_node.Base.{
  ℕ, ◌-◌, not, Option, none, some, List, Bytes, ◌==◌, if◌then◌else◌, Result, ok, thrown,
}
use carmentis_node.Base.Effects.{
  Action, pure, throw, throw_when, lift, modify, read, attempt, for_each, ◌>>=◌, ◌>>◌,
}
use carmentis_node.Database.Stores.{Table, Database}
use carmentis_node.Accounts.Sdk.{Radix}
use carmentis_node.Accounts.Staking.{
  set_slashing, apply_node_staking_unlocks, apply_node_slashing, apply_linear_vesting,
}
use carmentis_node.Accounts.Escrow.{update_expired_escrow}
use carmentis_node.Storage.Cleaner.{purge_data_file_table}
use carmentis_node.GlobalState.Types.{
  ValidatorSet, BlockInformation, CometParameters, Node, NodeSdk,
}
use carmentis_node.GlobalState.State.{
  with_store, on_world, set_new_day_timestamp, get_block_information, has_block_content,
  get_validator_set,
}
use carmentis_node.GlobalState.Validators.{build_validator_set_update}

module _ (db : Database) (sdk : NodeSdk db) (radix : Radix db) where
  -- `Utils.addDaysToTimestamp(timestamp, 0)`
  abbrev pub day_of : ℕ → ℕ
  day_of timestamp = sdk.accounts.add_days_to_timestamp timestamp 0

  abbrev keys_of : Table → Action (Node db) (List Bytes)
  keys_of t = read (λ n. sdk.get_keys n.world.store t)

  -- `updateVestingLocks`
  unfoldable pub update_vesting_locks : CometParameters → Action (Node db) (Unit {0})
  update_vesting_locks p = do
    accounts ← keys_of Table.accounts_with_vesting_locks
    for_each
        (λ account_hash.
          on_world
            (apply_linear_vesting sdk.accounts db radix account_hash (day_of p.block_timestamp)))
        accounts

  -- `updateEscrowLocks`
  unfoldable pub update_escrow_locks : CometParameters → Action (Node db) (Unit {0})
  update_escrow_locks p = do
    escrow_identifiers ← keys_of Table.escrows
    for_each
        (λ id. on_world (
          update_expired_escrow sdk.accounts db radix id (day_of p.block_timestamp) p.block_height))
        escrow_identifiers

  -- `applyNodeStakingUnlocks`
  unfoldable pub apply_all_staking_unlocks : CometParameters → Action (Node db) (Unit {0})
  apply_all_staking_unlocks p = do
    accounts ← keys_of Table.accounts_with_staking_locks
    for_each
        (λ account_hash. on_world (
          apply_node_staking_unlocks sdk.accounts db radix account_hash (day_of p.block_timestamp)))
        accounts

  -- `applyNodeSlashing`
  unfoldable pub apply_all_slashing : CometParameters → Action (Node db) (Unit {0})
  apply_all_slashing p = do
    accounts ← keys_of Table.accounts_with_staking_locks
    for_each
        (λ account_hash.
          on_world
            (apply_node_slashing sdk.accounts db radix account_hash (day_of p.block_timestamp)))
        accounts

  -- `purgeDataFileTable`
  unfoldable pub purge_data_files : CometParameters → Action (Node db) (Unit {0})
  purge_data_files p = modify (λ n. with_store n (
      purge_data_file_table db (day_of p.block_timestamp)
        (sdk.get_keys n.world.store Table.data_file) n.world.store))

  -- The body of the `try` of `updateGlobalStateOnBlock`.
  unfoldable pub daily_updates : CometParameters → Action (Node db) (Unit {0})
  daily_updates p = do
    set_new_day_timestamp (day_of p.block_timestamp)
    update_vesting_locks p
    update_escrow_locks p
    apply_all_staking_unlocks p
    apply_all_slashing p
    purge_data_files p

  -- `if (dataObject === undefined) throw …`
  abbrev node_hash_or_fail : Option ValidatorSet → Result Bytes
  node_hash_or_fail none = thrown
  node_hash_or_fail (some validator_set) = ok validator_set.validator_node_hash

  -- One misbehavior, with the address of its validator: an error of `setSlashing` is only logged.
  unfoldable pub process_misbehavior : CometParameters → Option Bytes → Action (Node db) (Unit {0})
  process_misbehavior p none = throw
  process_misbehavior p (some address) = do
    data_object ← read (λ n. get_validator_set db sdk n.world.store address)
    validator_node_hash ← lift (node_hash_or_fail data_object)
    loaded ← read (λ n. sdk.load_validator_node n validator_node_hash)
    validator_node ← lift loaded
    account_id ← lift validator_node.organization_account
    attempt (
        on_world (
          set_slashing sdk.accounts db radix account_id validator_node_hash
            (sdk.accounts.add_days_to_timestamp p.block_timestamp 30)))

  -- The day of the previous block, or 0.
  abbrev pub day_of_block : Option BlockInformation → ℕ
  day_of_block none = 0
  day_of_block (some information) = day_of information.timestamp

  -- `updateGlobalStateOnBlock`
  unfoldable pub update_global_state_on_block : CometParameters → Action (Node db) (Unit {0})
  update_global_state_on_block p = do
    exists ← read (λ n. has_block_content db sdk n.world.store p.block_height)
    throw_when exists
    previous ← read (λ n. get_block_information db sdk n.world.store (p.block_height - 1))
    for_each (process_misbehavior p) p.block_misbehaviors
    build_validator_set_update db sdk radix
    if not (day_of p.block_timestamp == day_of_block previous)
        then attempt (daily_updates p)
        else pure tt
