-- ===== src/Database/CachedStores.antt =====
-- The cached database as the tables of `Database.Stores` (CachedLevelDb.ts).
use carmentis_node.Base.{
  ℕ, ◌≡◌, refl, true, false, Option, none, some, Bytes, bytes_eq, ◌==◌, ◌&&◌, arith, ==_iff,
  if◌then◌else◌, Result, ok, thrown,
}
use carmentis_node.Base.Maps.{find-insert, find-erase}
use carmentis_node.Database.Level.{Level, is_table}
use carmentis_node.Database.Cache.{Hex, CachedLevelDb, get_raw, put_raw, del}
use carmentis_node.Database.Cache.Valid.{encode_injective}
use carmentis_node.Database.Stores.{Table, table_id, same_entry, Database}

-- The value of a call that does not throw.
abbrev value_or {ℓ} : {A : Type ℓ} → Result A → A → A
value_or (ok a) other = a
value_or thrown other = other

table_id-is_table : (t : Table) → is_table (table_id t) ≡ true
unfolding is_table table_id
table_id-is_table Table.chain_information = refl
table_id-is_table Table.data_file = refl
table_id-is_table Table.vb_radix = refl
table_id-is_table Table.token_radix = refl
table_id-is_table Table.block_information = refl
table_id-is_table Table.block_content = refl
table_id-is_table Table.block_modified_accounts = refl
table_id-is_table Table.microblock_vb_information = refl
table_id-is_table Table.microblock_storage = refl
table_id-is_table Table.virtual_blockchain_state = refl
table_id-is_table Table.account_state = refl
table_id-is_table Table.account_history = refl
table_id-is_table Table.account_by_public_key = refl
table_id-is_table Table.accounts_with_vesting_locks = refl
table_id-is_table Table.accounts_with_staking_locks = refl
table_id-is_table Table.escrows = refl
table_id-is_table Table.validator_set = refl
table_id-is_table Table.merkle_node = refl
table_id-is_table Table.genesis_seed = refl
table_id-is_table Table.validator_index = refl

module _ (hex : Hex) (level : Level) where
  unfoldable pub read_entry : CachedLevelDb level → Table → Bytes → Option Bytes
  read_entry c t k = value_or (get_raw hex level c (table_id t) k) none

  unfoldable pub write_entry : CachedLevelDb level → Table → Bytes → Bytes → CachedLevelDb level
  write_entry c t k v = value_or (put_raw hex level c (table_id t) k v) c

  unfoldable pub delete_entry : CachedLevelDb level → Table → Bytes → CachedLevelDb level
  delete_entry c t k = value_or (del hex level c (table_id t) k) c

  get_raw_after_put_raw :
      (c : CachedLevelDb level) (t u : ℕ) (k j v : Bytes)
      → is_table t ≡ true
      → is_table u ≡ true
      → value_or (get_raw hex level (value_or (put_raw hex level c t k v) c) u j) none
        ≡ (if (t == u) && bytes_eq k j then some v else value_or (get_raw hex level c u j) none)
  unfolding get_raw put_raw
  get_raw_after_put_raw c t u k j v known_t known_u = rw known_t (
      rw known_u (
        ground (
          arith,
          ==_iff t u,
          ==_iff u t,
          find-insert (hex.encode_key k) (hex.encode_key j) v (c.cached t).insertions,
          encode_injective hex k j,
        )))

  get_raw_after_del :
      (c : CachedLevelDb level) (t u : ℕ) (k j : Bytes)
      → (t == u) && bytes_eq k j ≡ false
      → is_table t ≡ true
      → is_table u ≡ true
      → value_or (get_raw hex level (value_or (del hex level c t k) c) u j) none
        ≡ value_or (get_raw hex level c u j) none
  unfolding get_raw del
  get_raw_after_del c t u k j other known_t known_u = rw known_t (
      rw known_u (
        ground (
          arith,
          other,
          ==_iff t u,
          ==_iff u t,
          find-erase (hex.encode_key k) (hex.encode_key j) (c.cached t).insertions,
          encode_injective hex k j,
        )))

  -- On the tables of the database `getRaw`, `putRaw` and `del` of the cache do not throw.
  pub cached-total :
      (c : CachedLevelDb level) (t : Table) (k v : Bytes)
      → (get_raw hex level c (table_id t) k ≡ ok (read_entry c t k))
        × (put_raw hex level c (table_id t) k v ≡ ok (write_entry c t k v))
        × (del hex level c (table_id t) k ≡ ok (delete_entry c t k))
  unfolding read_entry write_entry delete_entry get_raw put_raw del
  cached-total c t k v =
      let known = table_id-is_table t in
      (ground (arith, known), ground (arith, known), ground (arith, known))

  read_entry-write_entry :
      (c : CachedLevelDb level) (t u : Table) (k j v : Bytes)
      → read_entry (write_entry c t k v) u j
        ≡ (if same_entry t k u j then some v else read_entry c u j)
  unfolding read_entry write_entry
  read_entry-write_entry c t u k j v =
      get_raw_after_put_raw c (table_id t) (table_id u) k j v (table_id-is_table t)
        (table_id-is_table u)

  read_entry-delete_entry :
      (c : CachedLevelDb level) (t u : Table) (k j : Bytes)
      → same_entry t k u j ≡ false
      → read_entry (delete_entry c t k) u j ≡ read_entry c u j
  unfolding read_entry delete_entry
  read_entry-delete_entry c t u k j other =
      get_raw_after_del c (table_id t) (table_id u) k j other (table_id-is_table t)
        (table_id-is_table u)

  pub cached_stores : Database
  cached_stores = record {
    Store = CachedLevelDb level;
    get_raw = read_entry;
    put_raw = write_entry;
    del = delete_entry;
    get-put = read_entry-write_entry;
    get-del = read_entry-delete_entry;
  }
