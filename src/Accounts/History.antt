-- ===== src/Accounts/History.antt =====
-- The history of an account: entries chained by their hashes (AccountHistoryHandler.ts).
use carmentis_node.Base.{
  ℕ, zero, suc, Option, none, some, List, [], ◌∷◌, ◌++◌, Bytes, bytes_eq, Result, ok, thrown, ◌>>=◌,
  if◌then◌else◌,
}
use carmentis_node.Base.Effects.{Action, done}
use carmentis_node.Database.Stores.{Table, Database}
use carmentis_node.Accounts.Sdk.{Sdk, AccountState, HistoryEntry, Radix}
use carmentis_node.Accounts.State.{World}

module _ (sdk : Sdk) (db : Database) (radix : Radix db) where
  -- `getHistoryEntryHash`
  unfoldable pub get_history_entry_hash : Bytes → Bytes → Bytes
  get_history_entry_hash account_hash record_hash = sdk.sha256 (account_hash ++ record_hash)

  -- `linkedAccountHash || Utils.getNullHash()`
  abbrev pub or_null_hash : Option Bytes → Bytes
  or_null_hash none = sdk.null_hash
  or_null_hash (some account_hash) = account_hash

  abbrev pub new_entry :
      AccountState sdk.Locks
      → ℕ
      → Option Bytes
      → ℕ
      → sdk.ChainReference
      → ℕ
      → Bytes
      → Bytes
      → HistoryEntry sdk.ChainReference
  new_entry state kind linked_account_hash amount chain_reference timestamp public_reference
        private_reference =
      record {
        height = state.height;
        previous_history_hash = state.last_history_hash;
        kind = kind;
        public_reference = public_reference;
        private_reference = private_reference;
        timestamp = timestamp;
        linked_account = or_null_hash linked_account_hash;
        amount = amount;
        chain_reference = chain_reference;
      }

  -- The hash under which an entry of an account is kept.
  abbrev pub entry_hash : Bytes → HistoryEntry sdk.ChainReference → Bytes
  unfolding get_history_entry_hash
  entry_hash account_hash entry =
      get_history_entry_hash account_hash (sdk.sha256 (sdk.encode_entry entry))

  -- `addHistoryEntry`
  unfoldable pub add_history_entry :
      AccountState sdk.Locks
      → ℕ
      → Bytes
      → Option Bytes
      → ℕ
      → sdk.ChainReference
      → ℕ
      → Bytes
      → Bytes
      → Action (World db) Bytes
  add_history_entry state kind account_hash linked_account_hash amount chain_reference timestamp
        public_reference private_reference w =
      let entry =
        new_entry state kind linked_account_hash amount chain_reference timestamp public_reference
          private_reference in
      let hash = entry_hash account_hash entry in
      done hash (record w {
        store = db.put_raw w.store Table.account_history hash (sdk.encode_entry entry);
      })

  -- `loadHistoryEntry`
  unfoldable pub load_history_entry : World db → Bytes → Result (HistoryEntry sdk.ChainReference)
  load_history_entry w history_hash = elim (db.get_raw w.store Table.account_history history_hash) [
    | none ↦ thrown
    | some encoded ↦ ok (sdk.decode_entry encoded)
  ]

  -- `loadHistory`, with the number of records that are left to load
  unfoldable pub load_history :
      World db → Bytes → ℕ → Result (List (HistoryEntry sdk.ChainReference))
  load_history w history_hash zero = ok []
  load_history w history_hash (suc index) =
      if bytes_eq history_hash sdk.null_hash
      then ok []
      else (load_history_entry w history_hash >>= λ entry.
          load_history w entry.previous_history_hash index >>= λ rest. ok (entry ∷ rest))

  -- `getHistoryRange`, with the number of entries that the list may still take
  unfoldable pub get_history_range :
      World db → Bytes → Bytes → ℕ → Result (List (HistoryEntry sdk.ChainReference))
  get_history_range w history_hash to_history_hash zero = ok []
  get_history_range w history_hash to_history_hash (suc room) =
      if bytes_eq history_hash to_history_hash
      then ok []
      else if bytes_eq history_hash sdk.null_hash
      then ok []
      else (load_history_entry w history_hash >>= λ entry.
          get_history_range w entry.previous_history_hash to_history_hash room >>= λ rest.
          ok (entry ∷ rest))
