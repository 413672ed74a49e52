-- ===== src/Accounts/Staking.antt =====
-- Stakes, slashing and vesting (AccountStakeHandler.ts, AccountUnstakeHandler.ts,
-- AccountSlashingHandler.ts, AccountVestingHandler.ts).
use carmentis_node.Base.{ℕ, ◌+◌, ◌-◌, not, ◌&&◌, ◌||◌, Bytes, ltb, ◌==◌, if◌then◌else◌}
use carmentis_node.Base.Effects.{Action, pure, throw_when, lift, read, ◌>>=◌, ◌>>◌}
use carmentis_node.Database.Stores.{Database}
use carmentis_node.Accounts.Sdk.{Sdk, AccountState, Holding, Radix}
use carmentis_node.Accounts.State.{
  World, load_account_information, save_account_state, holding_of, put_account_with_staking_locks,
  delete_account_with_staking_locks, delete_account_with_vesting_locks,
}

-- What the handlers read of the protocol's state.
pub record ProtocolState : Type 0 where
  pub minimum_node_staking_amount : ℕ
  pub maximum_node_staking_amount : ℕ
  pub unstaking_delay_in_days : ℕ

module _ (sdk : Sdk) (db : Database) (radix : Radix db) where
  abbrev pub load_state : Bytes → Action (World db) (AccountState sdk.Locks)
  load_state account_hash = read (λ w. (load_account_information sdk db radix w account_hash).state)

  -- What is written back: the balance and the locks, or the locks alone.
  abbrev pub with_holding : AccountState sdk.Locks → Holding sdk.Locks → AccountState sdk.Locks
  with_holding s h = record s { balance = h.balance; locks = h.locks }

  abbrev pub with_locks : AccountState sdk.Locks → Holding sdk.Locks → AccountState sdk.Locks
  with_locks s h = record s { locks = h.locks }

  -- `stake`; an amount is an integer
  unfoldable pub stake : Bytes → ℕ → ℕ → Bytes → ProtocolState → Action (World db) (Unit {0})
  stake account_hash amount object_type object_identifier protocol_state = do
    throw_when (not (object_type == sdk.node_virtual_blockchain))
    account_state ← load_state account_hash
    let h = holding_of sdk db radix account_state
    let new_stake_amount = sdk.get_node_staking_lock_amount h object_identifier + amount
    throw_when (
        ltb new_stake_amount protocol_state.minimum_node_staking_amount
        || ltb protocol_state.maximum_node_staking_amount new_stake_amount)
    h' ← lift (sdk.add_node_staking h amount object_identifier)
    put_account_with_staking_locks sdk db radix account_hash
    save_account_state sdk db radix account_hash (with_holding account_state h')

  -- `planUnstake`
  unfoldable pub plan_unstake :
      Bytes → ℕ → ℕ → Bytes → ℕ → ProtocolState → Action (World db) (Unit {0})
  plan_unstake account_hash amount object_type object_identifier timestamp protocol_state = do
    throw_when (not (object_type == sdk.node_virtual_blockchain))
    let planned_unlock_timestamp =
        sdk.add_days_to_timestamp timestamp protocol_state.unstaking_delay_in_days
    account_state ← load_state account_hash
    let h = holding_of sdk db radix account_state
    let staked_amount = sdk.get_node_staking_lock_amount h object_identifier
    throw_when (ltb staked_amount amount)
    throw_when (
        ltb 0 (staked_amount - amount)
        && ltb (staked_amount - amount) protocol_state.minimum_node_staking_amount)
    h' ← lift (sdk.plan_node_staking_unlock h amount planned_unlock_timestamp object_identifier)
    save_account_state sdk db radix account_hash (with_holding account_state h')

  -- `applyNodeStakingUnlocks`
  unfoldable pub apply_node_staking_unlocks : Bytes → ℕ → Action (World db) (Unit {0})
  apply_node_staking_unlocks account_hash timestamp = do
    account_state ← load_state account_hash
    let (count, h) =
        sdk.apply_node_staking_unlocks (holding_of sdk db radix account_state) timestamp
    if ltb 0 count
        then (do
          save_account_state sdk db radix account_hash (with_locks account_state h)
          if sdk.has_node_staking_locks h
              then pure tt
              else delete_account_with_staking_locks sdk db radix account_hash)
        else pure tt

  -- `setSlashing`
  unfoldable pub set_slashing : Bytes → Bytes → ℕ → Action (World db) (Unit {0})
  set_slashing account_hash validator_node_id timestamp = do
    account_state ← load_state account_hash
    h ← lift (sdk.set_slashing (holding_of sdk db radix account_state) validator_node_id timestamp)
    save_account_state sdk db radix account_hash (with_locks account_state h)

  -- `cancelSlashing`
  unfoldable pub cancel_slashing : Bytes → Bytes → Action (World db) (Unit {0})
  cancel_slashing account_hash validator_node_id = do
    account_state ← load_state account_hash
    h ← lift (sdk.cancel_node_slashing (holding_of sdk db radix account_state) validator_node_id)
    save_account_state sdk db radix account_hash (with_locks account_state h)

  -- `applyNodeSlashing`
  unfoldable pub apply_node_slashing : Bytes → ℕ → Action (World db) (Unit {0})
  apply_node_slashing account_hash timestamp = do
    account_state ← load_state account_hash
    let (count, h) = sdk.apply_node_slashing (holding_of sdk db radix account_state) timestamp
    if ltb 0 count
        then save_account_state sdk db radix account_hash (with_holding account_state h)
        else pure tt

  -- `applyLinearVesting`
  unfoldable pub apply_linear_vesting : Bytes → ℕ → Action (World db) (Unit {0})
  apply_linear_vesting account_hash timestamp = do
    account_state ← load_state account_hash
    let (count, h) = sdk.apply_linear_vesting (holding_of sdk db radix account_state) timestamp
    if ltb 0 count
        then (do
          save_account_state sdk db radix account_hash (with_locks account_state h)
          if sdk.has_vesting_locks h
              then pure tt
              else delete_account_with_vesting_locks sdk db radix account_hash)
        else pure tt
