-- ===== src/Accounts/Manager.antt =====
-- The rest of the account manager: keys, issuance, queries (AccountManager.ts).
use carmentis_node.Base.{[], ℕ, ◌+◌, Bool, not, none, some, Bytes, Result, ok, thrown, is_some}
use carmentis_node.Base.Effects.{Action, throw_when, read, ◌>>=◌, ◌>>◌}
use carmentis_node.Base.Ints.{ℤ, pos, ◌+ℤ◌}
use carmentis_node.Database.Stores.{Table, Database}
use carmentis_node.Accounts.Sdk.{Sdk, Radix}
use carmentis_node.Accounts.State.{
  World, load_account_information, save_account_state, put_raw, get_account_state,
}
use carmentis_node.Accounts.History.{add_history_entry}
use carmentis_node.Accounts.Transfer.{signed_amount}

module _ (sdk : Sdk) (db : Database) (radix : Radix db) where
  -- `isPublicKeyAvailable`
  unfoldable pub is_public_key_available : World db → Bytes → Bool
  is_public_key_available w public_key =
      not (is_some (db.get_raw w.store Table.account_by_public_key (sdk.sha256 public_key)))

  -- `checkPublicKeyAvailabilityOrFail`
  unfoldable pub check_public_key_availability_or_fail : Bytes → Action (World db) (Unit {0})
  check_public_key_availability_or_fail public_key = do
    is_available ← read (λ w. is_public_key_available w public_key)
    throw_when (not is_available)

  -- `saveAccountByPublicKey`
  unfoldable pub save_account_by_public_key : Bytes → Bytes → Action (World db) (Unit {0})
  save_account_by_public_key account_hash public_key =
      put_raw sdk db radix Table.account_by_public_key (sdk.sha256 public_key) account_hash

  -- `loadAccountIdByPublicKeyHash`
  unfoldable pub load_account_id_by_public_key_hash : World db → Bytes → Result Bytes
  load_account_id_by_public_key_hash w key_hash =
      elim (db.get_raw w.store Table.account_by_public_key key_hash) [
        | none ↦ thrown
        | some account_hash ↦ ok account_hash
      ]

  -- `loadAccountByPublicKey`
  unfoldable pub load_account_by_public_key : World db → Bytes → Result Bytes
  unfolding load_account_id_by_public_key_hash
  load_account_by_public_key w public_key =
      load_account_id_by_public_key_hash w (sdk.sha256 public_key)

  -- `getAccountBalanceByAccountId`
  unfoldable pub get_account_balance : World db → Bytes → ℤ
  get_account_balance w account_id =
      (load_account_information sdk db radix w account_id).state.balance

  -- `isAccountDefinedByAccountId`
  unfoldable pub is_account_defined : World db → Bytes → Bool
  is_account_defined w account_id = (load_account_information sdk db radix w account_id).is_present

  -- `getStakedAmount`
  unfoldable pub get_staked_amount : World db → Bytes → Result ℕ
  get_staked_amount w account_id = elim (get_account_state sdk db radix w account_id) [
    | none ↦ thrown
    | some state ↦ ok (sdk.staked (record { balance = pos 0; locks = state.locks }))
  ]

  -- `setBalanceForAccount`
  unfoldable pub set_balance_for_account : ℕ → Bytes → ℕ → ℕ → Action (World db) (Unit {0})
  set_balance_for_account kind account_hash amount timestamp = do
    information ← read (λ w. load_account_information sdk db radix w account_hash)
    let account_state = record information.state {
      height = information.state.height + 1;
      balance = information.state.balance +ℤ signed_amount kind amount;
    }
    hash ←
        add_history_entry sdk db radix account_state kind account_hash none amount
          (sdk.block_reference 1) timestamp [] []
    save_account_state sdk db radix account_hash (record account_state { last_history_hash = hash })

  -- `createIssuerAccount`, at the time of its clock
  unfoldable pub create_issuer_account : Bytes → Bytes → ℕ → ℕ → Action (World db) (Unit {0})
  unfolding save_account_by_public_key set_balance_for_account
  create_issuer_account public_key issuer_account_hash initial_token_amount timestamp = do
    save_account_by_public_key issuer_account_hash public_key
    set_balance_for_account sdk.bk_received_issuance issuer_account_hash initial_token_amount
        timestamp
