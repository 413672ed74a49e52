-- ===== src/Storage/Cleaner.antt =====
-- The removal of expired files (StorageCleaner.ts).
use carmentis_node.Base.{
  bytes_eq_iff, ap, bytes_eq, ==_iff, inl, arith, inr, Bool-cases, ◌⊎◌, ◌==◌, ℕ, ◌≡◌, refl, true,
  false, Option, none, some, List, [], ◌∷◌, Bytes, ltb, if◌then◌else◌,
}
use carmentis_node.Base.Maps.{erase}
use carmentis_node.Storage.Paths.{
  Calendar, RootEntry, is_file_name, expiration_day, get_files_with_expiration_day_before,
}
use carmentis_node.Storage.Expired.{AreNamedBelow, expired-none}
use carmentis_node.Database.Stores.{Table, table_id, same_entry, Database}
use carmentis_node.Challenge.Manager.{big_endian}
use carmentis_node.Storage.Files.{Disk}

module _ (calendar : Calendar) where
  -- The earliest date of a snapshot; `none` is `Infinity`.
  abbrev pub file_timestamp : Bytes → Option ℕ
  file_timestamp date = if is_file_name date then some (expiration_day calendar date) else none

  -- `Math.min`
  abbrev pub min : Option ℕ → Option ℕ → Option ℕ
  min none b = b
  min (some a) none = some a
  min (some a) (some b) = if ltb b a then some b else some a

  -- `getEarliestSnapshotFileTimestamp`, on the dates of the snapshots
  unfoldable pub get_earliest_snapshot_file_timestamp : List Bytes → Option ℕ
  get_earliest_snapshot_file_timestamp [] = none
  get_earliest_snapshot_file_timestamp (date ∷ dates) =
      min (file_timestamp date) (get_earliest_snapshot_file_timestamp dates)

  -- The earlier of a day and of the earliest date.
  abbrev pub minimum_timestamp : ℕ → Option ℕ → ℕ
  minimum_timestamp day none = day
  minimum_timestamp day (some earliest) = if ltb earliest day then earliest else day

  -- `rm` of each file of a list
  unfoldable pub remove_files : List Bytes → Disk → Disk
  remove_files [] disk = disk
  remove_files (file ∷ files) disk = remove_files files (erase file disk)

  -- `removeExpiredDataFiles`, on what is in the directory of the storage
  unfoldable pub remove_expired_data_files : Bytes → List RootEntry → List Bytes → ℕ → Disk → Disk
  unfolding get_earliest_snapshot_file_timestamp
  remove_expired_data_files path entries dates day_timestamp disk =
      remove_files
        (get_files_with_expiration_day_before calendar path
          (minimum_timestamp day_timestamp (get_earliest_snapshot_file_timestamp dates)) entries)
        disk

  -- In directories that hold only files with names that `getFilePath` gives, the removal of expired
  -- files removes none, whatever the day and the snapshots: the names end in `.bin`, which the
  -- search does not expect.
  pub remove_expired_data_files-none :
      (path : Bytes) (entries : List RootEntry) (dates : List Bytes) (day : ℕ) (disk : Disk)
      → AreNamedBelow calendar entries
      → remove_expired_data_files path entries dates day disk ≡ disk
  unfolding remove_expired_data_files remove_files
  remove_expired_data_files-none path entries dates day disk named =
      let minimum = minimum_timestamp day (get_earliest_snapshot_file_timestamp dates) in
      rw (expired-none calendar path minimum entries named) refl

module _ (db : Database) where
  -- `purgeDataFileTable`, on the keys of the full table
  unfoldable pub purge_data_file_table : ℕ → List Bytes → db.Store → db.Store
  purge_data_file_table day_timestamp [] store = store
  purge_data_file_table day_timestamp (key ∷ keys) store =
      let rest = purge_data_file_table day_timestamp keys in
      if ltb (big_endian 0 key) day_timestamp
      then rest (db.del store Table.data_file key)
      else rest store

  not_deleted :
      (day : ℕ) (key : Bytes) (t : Table) (k : Bytes)
      → ((table_id t == table_id Table.data_file) ≡ false) ⊎ (ltb (big_endian 0 k) day ≡ false)
      → ltb (big_endian 0 key) day ≡ true
      → same_entry Table.data_file key t k ≡ false
  not_deleted day key t k (inl other) expired = ground (
    arith,
    other,
    ==_iff (table_id t) (table_id Table.data_file),
    ==_iff (table_id Table.data_file) (table_id t),
  )
  not_deleted day key t k (inr later) expired = elim (Bool-cases (bytes_eq key k)) [
    | inl same ↦
        let number : big_endian 0 key ≡ big_endian 0 k =
          ap (big_endian 0) ((bytes_eq_iff key k).0 same) in
        absurd (ground (arith, number, later, expired))
    | inr different ↦ ground (arith, different)
  ]

  -- The purge leaves every entry of the other tables as it is, and every data file that has not
  -- expired.
  pub purge_data_file_table-kept :
      (day : ℕ) (keys : List Bytes) (store : db.Store) (t : Table) (k : Bytes)
      → ((table_id t == table_id Table.data_file) ≡ false) ⊎ (ltb (big_endian 0 k) day ≡ false)
      → db.get_raw (purge_data_file_table day keys store) t k ≡ db.get_raw store t k
  unfolding purge_data_file_table
  purge_data_file_table-kept day [] store t k h = refl
  purge_data_file_table-kept day (key ∷ keys) store t k h =
      elim (Bool-cases (ltb (big_endian 0 key) day)) [
        | inr later ↦ ground (arith, later, purge_data_file_table-kept day keys store t k h)
        | inl expired ↦
            let rest =
              purge_data_file_table-kept day keys (db.del store Table.data_file key) t k h in
            let other = not_deleted day key t k h expired in
            ground (arith, expired, rest, db.get-del store Table.data_file t key k other)
      ]
