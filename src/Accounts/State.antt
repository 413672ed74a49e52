-- ===== src/Accounts/State.antt =====
-- The states of the accounts (AccountStateManager.ts, ModifiedAccounts.ts).
use carmentis_node.Base.{ℕ, Bool, true, not, Option, none, some, List, [], Bytes, ◌==◌}
use carmentis_node.Base.Maps.{add}
use carmentis_node.Base.Effects.{done, failed, Action, modify, ◌>>◌}
use carmentis_node.Base.Ints.{pos}
use carmentis_node.Database.Stores.{Table, Database}
use carmentis_node.Accounts.Sdk.{Sdk, AccountState, Holding, Escrow, Radix}

-- The database and `ModifiedAccounts.accounts`, a set of hexadecimal strings.
pub record World (db : Database) : Type 0 where
  pub store : db.Store
  pub modified : List Bytes

-- `AccountInformation`
pub record AccountInformation (Locks : Type 0) : Type 0 where
  pub is_present : Bool
  pub kind : ℕ
  pub state : AccountState Locks

module _ (sdk : Sdk) (db : Database) (radix : Radix db) where
  -- `ModifiedAccounts.store` and `ModifiedAccounts.clear`
  abbrev pub store_modified : Bytes → Action (World db) (Unit {0})
  store_modified account_hash = modify (λ w. record w { modified = add account_hash w.modified })

  abbrev pub clear_modified : Action (World db) (Unit {0})
  clear_modified = modify (λ w. record w { modified = [] })

  -- `accountRadix.set`
  abbrev pub set_in_radix : Bytes → Bytes → Action (World db) (Unit {0})
  set_in_radix account_hash state_hash w = elim (radix.set w.store account_hash state_hash) [
    | done ended s ↦ done ended (record w { store = s })
    | failed s ↦ failed (record w { store = s })
  ]

  -- `db.putRaw` and `db.del`
  abbrev pub put_raw : Table → Bytes → Bytes → Action (World db) (Unit {0})
  put_raw t k v = modify (λ w. record w { store = db.put_raw w.store t k v })

  abbrev pub delete : Table → Bytes → Action (World db) (Unit {0})
  delete t k = modify (λ w. record w { store = db.del w.store t k })

  -- `saveAccountState`
  unfoldable pub save_account_state : Bytes → AccountState sdk.Locks → Action (World db) (Unit {0})
  save_account_state account_hash account_state = do
    let encoded = sdk.encode_state account_state
    store_modified account_hash
    set_in_radix account_hash (sdk.sha256 encoded)
    put_raw Table.account_state account_hash encoded

  -- `getAccountStateByAccountId`
  abbrev pub get_account_state : World db → Bytes → Option (AccountState sdk.Locks)
  get_account_state w account_hash = elim (db.get_raw w.store Table.account_state account_hash) [
    | none ↦ none
    | some encoded ↦ some (sdk.decode_state encoded)
  ]

  abbrev pub new_state : AccountState sdk.Locks
  new_state = record {
    height = 0;
    balance = pos 0;
    last_history_hash = sdk.null_hash;
    locks = sdk.no_locks;
  }

  -- `loadAccountInformation`
  unfoldable pub load_account_information : World db → Bytes → AccountInformation sdk.Locks
  load_account_information w account_hash =
      let type_ = sdk.account_type account_hash in
      elim (get_account_state w account_hash) [
        | some state ↦ record { is_present = true; kind = type_; state = state }
        | none ↦ record {
          is_present = not (type_ == sdk.account_standard);
          kind = type_;
          state = new_state;
        }
      ]

  -- `new BalanceAvailability(state.balance, state.locks)`
  abbrev pub holding_of : AccountState sdk.Locks → Holding sdk.Locks
  holding_of s = record { balance = s.balance; locks = s.locks }

  -- `putAccountWithStakingLocks` and its kin
  abbrev pub put_account_with_staking_locks : Bytes → Action (World db) (Unit {0})
  put_account_with_staking_locks account_hash =
      put_raw Table.accounts_with_staking_locks account_hash sdk.empty_record

  abbrev pub put_account_with_vesting_locks : Bytes → Action (World db) (Unit {0})
  put_account_with_vesting_locks account_hash =
      put_raw Table.accounts_with_vesting_locks account_hash sdk.empty_record

  abbrev pub delete_account_with_staking_locks : Bytes → Action (World db) (Unit {0})
  delete_account_with_staking_locks account_hash =
      delete Table.accounts_with_staking_locks account_hash

  abbrev pub delete_account_with_vesting_locks : Bytes → Action (World db) (Unit {0})
  delete_account_with_vesting_locks account_hash =
      delete Table.accounts_with_vesting_locks account_hash

  -- `getEscrow` and `putEscrow`
  abbrev pub get_escrow : World db → Bytes → Option Escrow
  get_escrow w identifier = elim (db.get_raw w.store Table.escrows identifier) [
    | none ↦ none
    | some encoded ↦ some (sdk.decode_escrow encoded)
  ]

  abbrev pub put_escrow : Bytes → Escrow → Action (World db) (Unit {0})
  put_escrow identifier e = put_raw Table.escrows identifier (sdk.encode_escrow e)
