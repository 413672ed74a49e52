-- ===== src/Accounts/Keys.antt =====
-- The keys of the accounts, and the account of the issuer (AccountManager.ts).
use carmentis_node.Base.{
  ℕ, ◌+◌, ◌≡◌, refl, false, none, Bytes, bytes_eq, [], if◌then◌else◌, arith, bytes_eq_iff, ok,
}
use carmentis_node.Base.Effects.{done}
use carmentis_node.Base.Ints.{◌+ℤ◌}
use carmentis_node.Database.Stores.{Table, table_id, Database}
use carmentis_node.Accounts.Sdk.{Sdk, Radix}
use carmentis_node.Accounts.State.{World, load_account_information}
use carmentis_node.Accounts.History.{add_history_entry, new_entry, entry_hash}
use carmentis_node.Accounts.Transfer.{signed_amount}
use carmentis_node.Accounts.Manager.{
  is_public_key_available, save_account_by_public_key, load_account_by_public_key,
  load_account_id_by_public_key_hash, get_account_balance, set_balance_for_account,
  create_issuer_account,
}
use carmentis_node.Accounts.Frames.{
  state_of_account, save_account_state-entries, save_account_state-state_of, state_of-same_entries,
}

module _ (sdk : Sdk) (db : Database) (radix : Radix db) where
  -- Where an account's key has been saved, a key with the same hash leads to that account, and
  -- every other key leads where it led before; the key is then no longer available.
  pub save_account_by_public_key-load :
      (account_hash public_key key : Bytes) (w w' : World db)
      → save_account_by_public_key sdk db radix account_hash public_key w ≡ done tt w'
      → (load_account_by_public_key sdk db radix w' key ≡ (
          if bytes_eq (sdk.sha256 public_key) (sdk.sha256 key)
          then ok account_hash
          else load_account_by_public_key sdk db radix w key))
        × (is_public_key_available sdk db radix w' key ≡ (
            if bytes_eq (sdk.sha256 public_key) (sdk.sha256 key)
            then false
            else is_public_key_available sdk db radix w key))
  unfolding save_account_by_public_key load_account_by_public_key load_account_id_by_public_key_hash
      is_public_key_available table_id
  save_account_by_public_key-load a p k w w' e =
      let entries =
        db.get-put w.store Table.account_by_public_key Table.account_by_public_key (sdk.sha256 p)
          (sdk.sha256 k) a in
      (ground (arith, e, entries), ground (arith, e, entries))

  -- `set_balance_for_account` adds to one balance and touches no key.
  set_balance_for_account-balance :
      (kind : ℕ) (a : Bytes) (amount timestamp : ℕ) (w w' : World db)
      → set_balance_for_account sdk db radix kind a amount timestamp w ≡ done tt w'
      → ((j : Bytes)
          → get_account_balance sdk db radix w' j ≡ (
              if bytes_eq a j
              then get_account_balance sdk db radix w j +ℤ signed_amount kind amount
              else get_account_balance sdk db radix w j))
        × ((j : Bytes)
            → db.get_raw w'.store Table.account_by_public_key j
              ≡ db.get_raw w.store Table.account_by_public_key j)
  unfolding set_balance_for_account add_history_entry table_id state_of_account
      load_account_information get_account_balance
  set_balance_for_account-balance kind a amount timestamp w w' e =
      let state = (load_account_information sdk db radix w a).state in
      let moved = record state {
        height = state.height + 1;
        balance = state.balance +ℤ signed_amount kind amount;
      } in
      let entry =
        new_entry sdk db radix moved kind none amount (sdk.block_reference 1) timestamp [] [] in
      let hash = entry_hash sdk db radix a entry in
      let saved = record moved { last_history_hash = hash } in
      let entered = record w {
        store = db.put_raw w.store Table.account_history hash (sdk.encode_entry entry);
      } in
      (
        λ j. ground (
          arith,
          save_account_state-state_of sdk db radix a saved entered w' e j,
          state_of-same_entries sdk db radix w entered j (
              ground (
                arith,
                db.get-put w.store Table.account_history Table.account_state hash j
                    (sdk.encode_entry entry),
              )),
          bytes_eq_iff a j,
        ),
        λ j. ground (
          arith,
          save_account_state-entries sdk db radix a saved entered w' e Table.account_by_public_key j
              refl,
          db.get-put w.store Table.account_history Table.account_by_public_key hash j
              (sdk.encode_entry entry),
        ),
      )

  -- The issuer's account, where its creation ends: its key leads to it, and its balance has grown
  -- by the initial amount of tokens, with the sign of an issuance; no other balance changes.
  pub create_issuer_account_lem :
      (public_key issuer : Bytes) (amount timestamp : ℕ) (w w' : World db)
      → create_issuer_account sdk db radix public_key issuer amount timestamp w ≡ done tt w'
      → (load_account_by_public_key sdk db radix w' public_key ≡ ok issuer)
        × ((j : Bytes)
            → get_account_balance sdk db radix w' j ≡ (
                if bytes_eq issuer j
                then get_account_balance sdk db radix w j
                  +ℤ signed_amount sdk.bk_received_issuance amount
                else get_account_balance sdk db radix w j))
  unfolding create_issuer_account save_account_by_public_key load_account_by_public_key
      load_account_id_by_public_key_hash table_id get_account_balance state_of_account
  create_issuer_account_lem key issuer amount timestamp w w' e =
      let saved = record w {
        store = db.put_raw w.store Table.account_by_public_key (sdk.sha256 key) issuer;
      } in
      let (balances, keys) =
        set_balance_for_account-balance sdk.bk_received_issuance issuer amount timestamp saved w'
          e in
      (
        ground (
          arith,
          keys (sdk.sha256 key),
          bytes_eq_iff (sdk.sha256 key) (sdk.sha256 key),
          db.get-put w.store Table.account_by_public_key Table.account_by_public_key
              (sdk.sha256 key) (sdk.sha256 key) issuer,
        ),
        λ j. ground (
          arith,
          balances j,
          state_of-same_entries sdk db radix w saved j (
              ground (
                arith,
                db.get-put w.store Table.account_by_public_key Table.account_state (sdk.sha256 key)
                    j issuer,
              )),
        ),
      )
