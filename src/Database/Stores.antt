-- ===== src/Database/Stores.antt =====
-- The database as the rest of the node sees it: tables of bytes (DbInterface.ts).
use carmentis_node.Base.{
  ℕ, ◌≡◌, Bool, false, ◌&&◌, Option, some, Bytes, bytes_eq, ◌==◌, if◌then◌else◌,
}

-- `LevelDbTable`
pub data Table : Type 0 where
  chain_information data_file vb_radix token_radix block_information block_content : Table
  block_modified_accounts microblock_vb_information microblock_storage : Table
  virtual_blockchain_state account_state account_history account_by_public_key : Table
  accounts_with_vesting_locks accounts_with_staking_locks escrows validator_set : Table
  merkle_node genesis_seed validator_index : Table

unfoldable pub table_id : Table → ℕ
table_id chain_information = 0x00
table_id data_file = 0x01
table_id vb_radix = 0x02
table_id token_radix = 0x03
table_id block_information = 0x04
table_id block_content = 0x05
table_id block_modified_accounts = 0x06
table_id microblock_vb_information = 0x07
table_id microblock_storage = 0x08
table_id virtual_blockchain_state = 0x09
table_id account_state = 0x0a
table_id account_history = 0x0b
table_id account_by_public_key = 0x0c
table_id accounts_with_vesting_locks = 0x0d
table_id accounts_with_staking_locks = 0x0e
table_id escrows = 0x0f
table_id validator_set = 0x10
table_id merkle_node = 0x11
table_id genesis_seed = 0x12
table_id validator_index = 0x13

abbrev pub same_entry : Table → Bytes → Table → Bytes → Bool
same_entry t k u j = (table_id t == table_id u) && bytes_eq k j

-- `getRaw`, `putRaw` and `del` on existing tables. Of a deletion the modules over this interface
-- rely only on what it does to the other entries.
pub record Database : Type 1 where
  pub Store : Type 0
  pub get_raw : Store → Table → Bytes → Option Bytes
  pub put_raw : Store → Table → Bytes → Bytes → Store
  pub del : Store → Table → Bytes → Store
  pub get-put :
      (s : Store) (t u : Table) (k j v : Bytes)
      → get_raw (put_raw s t k v) u j ≡ (if same_entry t k u j then some v else get_raw s u j)
  pub get-del :
      (s : Store) (t u : Table) (k j : Bytes)
      → same_entry t k u j ≡ false
      → get_raw (del s t k) u j ≡ get_raw s u j
