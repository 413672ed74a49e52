-- ===== src/Accounts/Frames.antt =====
-- What a call that ended has changed of the database.
use carmentis_node.Base.{
  ℕ, ◌≡◌, refl, Bool, true, false, Option, none, some, Bytes, bytes_eq, bytes_eq_iff, ◌==◌,
  if◌then◌else◌, arith,
}
use carmentis_node.Base.Effects.{done, bind-eq-done}
use carmentis_node.Database.Stores.{Table, table_id, same_entry, Database}
use carmentis_node.Accounts.Sdk.{Sdk, AccountState, Radix}
use carmentis_node.Accounts.State.{
  World, set_in_radix, get_account_state, save_account_state, load_account_information,
}

module _ (sdk : Sdk) (db : Database) (radix : Radix db) where
  -- The account's state, or the state of a new account.
  unfoldable pub state_of_account : World db → Bytes → AccountState sdk.Locks
  unfolding load_account_information
  state_of_account w j = (load_account_information sdk db radix w j).state

  pub set_in_radix-frame :
      (k v : Bytes) (w w' : World db)
      → set_in_radix sdk db radix k v w ≡ done tt w'
      → (t : Table) (j : Bytes) → (table_id t == table_id Table.token_radix) ≡ false
      → db.get_raw w'.store t j ≡ db.get_raw w.store t j
  set_in_radix-frame k v w w' h t j e = ground (arith, radix.set-frame w.store k v t j e)

  -- Every entry of the tables but the tree's after the state of an account is saved.
  pub save_account_state-entries :
      (a : Bytes) (st : AccountState sdk.Locks) (w w' : World db)
      → save_account_state sdk db radix a st w ≡ done tt w'
      → (t : Table) (j : Bytes) → (table_id t == table_id Table.token_radix) ≡ false
      → db.get_raw w'.store t j ≡ (
          if same_entry Table.account_state a t j
          then some (sdk.encode_state st)
          else db.get_raw w.store t j)
  unfolding save_account_state
  save_account_state-entries a st w w' h t j e =
      let start = record w { modified = carmentis_node.Base.Maps.add a w.modified } in
      let (u, middle, set, put) =
        bind-eq-done (set_in_radix sdk db radix a (sdk.sha256 (sdk.encode_state st)) start) _ h in
      ground (
        arith,
        set_in_radix-frame a (sdk.sha256 (sdk.encode_state st)) start middle set t j e,
        db.get-put middle.store Table.account_state t a j (sdk.encode_state st),
      )

  -- The states of the accounts after one is saved.
  pub save_account_state-state :
      (a : Bytes) (st : AccountState sdk.Locks) (w w' : World db)
      → save_account_state sdk db radix a st w ≡ done tt w'
      → (j : Bytes)
      → get_account_state sdk db radix w' j
        ≡ (if bytes_eq a j then some st else get_account_state sdk db radix w j)
  unfolding table_id
  save_account_state-state a st w w' h j = ground (
    arith,
    save_account_state-entries a st w w' h Table.account_state j refl,
    sdk.decode-encode_state st,
  )

  pub save_account_state-state_of :
      (a : Bytes) (st : AccountState sdk.Locks) (w w' : World db)
      → save_account_state sdk db radix a st w ≡ done tt w'
      → (j : Bytes) → state_of_account w' j ≡ (if bytes_eq a j then st else state_of_account w j)
  unfolding load_account_information state_of_account
  save_account_state-state_of a st w w' h j = ground (arith, save_account_state-state a st w w' h j)

  -- An account that two worlds store alike has one state in both.
  pub state_of-same_entries :
      (w w' : World db) (j : Bytes)
      → db.get_raw w'.store Table.account_state j ≡ db.get_raw w.store Table.account_state j
      → state_of_account w' j ≡ state_of_account w j
  unfolding load_account_information state_of_account
  state_of-same_entries w w' j e = ground (arith, e)
