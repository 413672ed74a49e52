-- ===== src/Accounts/Locks.antt =====
-- The bounds of the stakes (AccountStakeHandler.ts, AccountUnstakeHandler.ts).
use carmentis_node.Base.{
  ◌⊎◌, ℕ, ◌+◌, ◌-◌, ◌≤◌, ◌≡◌, refl, not, ◌&&◌, ◌||◌, some, Bytes, ◌==◌, arith, bytes_eq_iff, ltb,
}
use carmentis_node.Base.Effects.{done, throw_when-eq_done, lift-eq_done}
use carmentis_node.Database.Stores.{Table, table_id, Database}
use carmentis_node.Accounts.Sdk.{Sdk, Radix}
use carmentis_node.Accounts.State.{World, load_account_information, holding_of}
use carmentis_node.Accounts.Staking.{ProtocolState, with_holding, stake, plan_unstake}
use carmentis_node.Accounts.Manager.{get_account_balance}
use carmentis_node.Accounts.Frames.{
  state_of_account, save_account_state-state_of, state_of-same_entries, save_account_state-entries,
}

module _ (sdk : Sdk) (db : Database) (radix : Radix db) where
  -- What an account has staked on an object.
  abbrev pub staked_on : World db → Bytes → Bytes → ℕ
  staked_on w a object_identifier =
      sdk.get_node_staking_lock_amount (holding_of sdk db radix (state_of_account sdk db radix w a))
        object_identifier

  -- A stake that ends was put on a node; it adds its amount to what the account had staked on it,
  -- the sum is within the bounds of the protocol, no balance changes, and the account is marked as
  -- one with staking locks.
  pub stake_lem :
      (a : Bytes) (amount object_type : ℕ) (id : Bytes) (p : ProtocolState) (w w' : World db)
      → stake sdk db radix a amount object_type id p w ≡ done tt w'
      → (object_type ≡ sdk.node_virtual_blockchain)
        × (staked_on w' a id ≡ staked_on w a id + amount)
        × (p.minimum_node_staking_amount ≤ staked_on w' a id)
        × (staked_on w' a id ≤ p.maximum_node_staking_amount)
        × ((j : Bytes)
            → get_account_balance sdk db radix w' j ≡ get_account_balance sdk db radix w j)
        × (db.get_raw w'.store Table.accounts_with_staking_locks a ≡ some sdk.empty_record)
  unfolding stake table_id state_of_account load_account_information get_account_balance
  stake_lem a amount object_type id p w w' e =
      let state = (load_account_information sdk db radix w a).state in
      let start = holding_of sdk db radix state in
      let before = sdk.get_node_staking_lock_amount start id in
      let (is_node, e1) =
        throw_when-eq_done (not (object_type == sdk.node_virtual_blockchain)) {s = w} _ e in
      let (bounds, e2) =
        throw_when-eq_done
          (ltb (before + amount) p.minimum_node_staking_amount
            || ltb p.maximum_node_staking_amount (before + amount))
          {s = w} _ e1 in
      let (h, staked, e3) = lift-eq_done (sdk.add_node_staking start amount id) {s = w} _ e2 in
      let marked = record w {
        store = db.put_raw w.store Table.accounts_with_staking_locks a sdk.empty_record;
      } in
      let saved = with_holding sdk db radix state h in
      let new_state = save_account_state-state_of sdk db radix a saved marked w' e3 in
      let amount_after = sdk.add_node_staking-amount start h amount id staked in
      let sum : staked_on w' a id ≡ staked_on w a id + amount =
        ground (arith, new_state a, bytes_eq_iff a a, amount_after) in
      (
        ground (arith, is_node),
        sum,
        ground (arith, sum, bounds),
        ground (arith, sum, bounds),
        λ j. ground (
          arith,
          new_state j,
          bytes_eq_iff a j,
          sdk.add_node_staking-balance start h amount id staked,
          state_of-same_entries sdk db radix w marked j (
              ground (
                arith,
                db.get-put w.store Table.accounts_with_staking_locks Table.account_state a j
                    sdk.empty_record,
              )),
        ),
        ground (
          arith,
          bytes_eq_iff a a,
          save_account_state-entries sdk db radix a saved marked w' e3
              Table.accounts_with_staking_locks a refl,
          db.get-put w.store Table.accounts_with_staking_locks Table.accounts_with_staking_locks a a
              sdk.empty_record,
        ),
      )

  -- An unlock that was planned is for no more than what is staked on the node, and leaves nothing
  -- or at least the minimum staked.
  pub plan_unstake_lem :
      (a : Bytes) (amount object_type : ℕ) (id : Bytes) (timestamp : ℕ) (p : ProtocolState)
      (w w' : World db)
      → plan_unstake sdk db radix a amount object_type id timestamp p w ≡ done tt w'
      → (object_type ≡ sdk.node_virtual_blockchain)
        × (amount ≤ staked_on w a id)
        × ((staked_on w a id ≡ amount)
            ⊎ (p.minimum_node_staking_amount + amount ≤ staked_on w a id))
  unfolding plan_unstake state_of_account load_account_information
  plan_unstake_lem a amount object_type id timestamp p w w' e =
      let start = holding_of sdk db radix (load_account_information sdk db radix w a).state in
      let staked = sdk.get_node_staking_lock_amount start id in
      let (is_node, e1) =
        throw_when-eq_done (not (object_type == sdk.node_virtual_blockchain)) {s = w} _ e in
      let (enough, e2) = throw_when-eq_done (ltb staked amount) {s = w} _ e1 in
      let (rest, e3) =
        throw_when-eq_done
          (ltb 0 (staked - amount) && ltb (staked - amount) p.minimum_node_staking_amount) {s = w} _
          e2 in
      (ground (arith, is_node), ground (arith, enough), ground (arith, enough, rest))
