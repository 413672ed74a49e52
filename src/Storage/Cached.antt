-- ===== src/Storage/Cached.antt =====
-- Microblocks are kept in a buffer until they are flushed to their files (CachedStorage.ts), and are
-- read back from there (Storage.ts).
use carmentis_node.Base.{
  ℕ, ◌+◌, ◌≡◌, Bool, true, false, Option, none, some, List, [], ◌∷◌, ◌++◌, Bytes, length, get_or,
  Result, ok, ◌>>=◌, ◌>>◌,
}
use carmentis_node.Base.Maps.{Map, find, insert}
use carmentis_node.Base.Effects
use carmentis_node.Base.Effects.{Outcome, done, failed, Action}
use carmentis_node.Database.Stores.{Table, Database}
use carmentis_node.Storage.Paths.{Calendar, get_file_path, get_file_identifier}
use carmentis_node.Storage.Files.{Disk, MicroblockStorage, read_stored, write_transactions}

-- `DataFile`, an entry of the table of that name.
pub record DataFile : Type 0 where
  pub file_size : ℕ
  pub microblock_count : ℕ

-- `BufferedTransactions`
pub record BufferedTransactions : Type 0 where
  pub transactions_to_write : List Bytes
  pub expected_file_size_before_to_write : ℕ

-- The codecs, the directory of the files, and how a microblock is taken apart: its header and body.
pub record StorageSdk : Type 0 where
  pub calendar : Calendar
  pub path : Bytes
  pub int_to_byte_array : ℕ → ℕ → Bytes
  pub load_from_serialized_microblock : Bytes → Result (Bytes × Bytes)
  pub encode_storage : MicroblockStorage → Bytes
  pub decode_storage : Bytes → MicroblockStorage
  pub decode-encode_storage : (s : MicroblockStorage) → decode_storage (encode_storage s) ≡ s
  pub encode_data_file : DataFile → Bytes
  pub decode_data_file : Bytes → DataFile
  pub decode-encode_data_file : (f : DataFile) → decode_data_file (encode_data_file f) ≡ f

-- The buffer is by file identifier, the microblocks by their hashes.
pub record CachedStorage (db : Database) : Type 0 where
  pub content_to_be_written : Map BufferedTransactions
  pub cached_microblocks : Map Bytes
  pub store : db.Store
  pub disk : Disk

-- `MicroblockReadingMode`
pub data MicroblockReadingMode : Type 0 where
  read_full read_header read_body : MicroblockReadingMode

module _ (sdk : StorageSdk) (db : Database) where
  abbrev pub path_of : ℕ → Bytes
  path_of file_identifier = get_file_path sdk.calendar sdk.path file_identifier

  -- `getMicroblockStorage`
  abbrev pub get_microblock_storage : db.Store → Bytes → Option MicroblockStorage
  get_microblock_storage store hash = elim (db.get_raw store Table.microblock_storage hash) [
    | none ↦ none
    | some encoded ↦ some (sdk.decode_storage encoded)
  ]

  -- `putMicroblockStorage`
  abbrev pub put_microblock_storage : db.Store → Bytes → MicroblockStorage → db.Store
  put_microblock_storage store hash storage =
      db.put_raw store Table.microblock_storage hash (sdk.encode_storage storage)

  -- `getDataFileFromDataFileKey`, or the entry of a new file
  unfoldable pub get_data_file : db.Store → Bytes → DataFile
  get_data_file store key = elim (db.get_raw store Table.data_file key) [
    | none ↦ record { file_size = 0; microblock_count = 0 }
    | some encoded ↦ sdk.decode_data_file encoded
  ]

  -- `putDataFile`
  abbrev pub put_data_file : db.Store → Bytes → DataFile → db.Store
  put_data_file store key data_file =
      db.put_raw store Table.data_file key (sdk.encode_data_file data_file)

  -- `readMicroblock` of `Storage`
  unfoldable pub read_from_disk : Disk → db.Store → Bytes → Option Bytes
  read_from_disk disk store hash = elim (get_microblock_storage store hash) [
    | none ↦ none
    | some info ↦ read_stored disk (path_of info.file_identifier) info.offset info.size
  ]

  -- What `readMicroblock` finds, in the cache or on the disk.
  unfoldable pub find_microblock : CachedStorage db → Bytes → Option Bytes
  unfolding find
  find_microblock s hash = elim (find hash s.cached_microblocks) [
    | some serialized ↦ some serialized
    | none ↦ read_from_disk s.disk s.store hash
  ]

  -- The sanity check throws where the microblock cannot be loaded; a wrong hash is only logged.
  abbrev pub check_sanity : Bool → Bytes → Result (Unit {0})
  check_sanity false serialized = ok tt
  check_sanity true serialized =
      sdk.load_from_serialized_microblock serialized >>= λ microblock. ok tt

  abbrev pub part_of : MicroblockReadingMode → Bytes → Result Bytes
  part_of read_full serialized = ok serialized
  part_of read_header serialized =
      sdk.load_from_serialized_microblock serialized >>= λ microblock. ok microblock.0
  part_of read_body serialized =
      sdk.load_from_serialized_microblock serialized >>= λ microblock. ok microblock.1

  -- `readMicroblock`
  unfoldable pub read_microblock :
      CachedStorage db → Bytes → MicroblockReadingMode → Bool → Result (Option Bytes)
  read_microblock s hash part_type do_sanity_check = elim (find_microblock s hash) [
    | none ↦ ok none
    | some serialized ↦
        check_sanity do_sanity_check serialized
        >> (part_of part_type serialized >>= λ part. ok (some part))
  ]

  -- The buffer with one more transaction for a file.
  unfoldable pub push_transaction :
      ℕ → Bytes → ℕ → Map BufferedTransactions → Map BufferedTransactions
  unfolding find insert
  push_transaction file_identifier tx file_size buffer = elim (find (file_identifier ∷ []) buffer) [
    | some b ↦
        insert (file_identifier ∷ [])
          (record b { transactions_to_write = b.transactions_to_write ++ (tx ∷ []) }) buffer
    | none ↦
        insert (file_identifier ∷ [])
          (record {
            transactions_to_write = tx ∷ [];
            expected_file_size_before_to_write = file_size;
          })
          buffer
  ]

  -- `addMicroblockToBuffer`, given the hash of the microblock
  unfoldable pub add_microblock_to_buffer : ℕ → Bytes → Bytes → CachedStorage db → CachedStorage db
  unfolding get_file_identifier push_transaction get_data_file
  add_microblock_to_buffer expiration_day hash serialized s =
      let file_identifier = get_file_identifier expiration_day hash in
      let key = sdk.int_to_byte_array file_identifier 4 in
      let data_file = get_data_file s.store key in
      let size = length serialized in
      let located =
        put_microblock_storage s.store hash (record {
          file_identifier = file_identifier;
          offset = data_file.file_size;
          size = size;
        }) in
      record {
        content_to_be_written =
            push_transaction file_identifier serialized data_file.file_size s.content_to_be_written;
        cached_microblocks = insert hash serialized s.cached_microblocks;
        store = put_data_file located key (record {
          file_size = data_file.file_size + size;
          microblock_count = data_file.microblock_count + 1;
        });
        disk = s.disk;
      }

  -- `clear`
  abbrev pub clear : CachedStorage db → CachedStorage db
  clear s = record s { content_to_be_written = []; cached_microblocks = [] }

  -- The loop of `flush`.
  unfoldable pub write_buffers : Map BufferedTransactions → Action Disk (Unit {0})
  write_buffers [] disk = done tt disk
  write_buffers ((key, b) ∷ buffers) disk =
      Effects.bind
        (write_transactions (path_of (get_or key 0 0)) b.expected_file_size_before_to_write
          b.transactions_to_write disk)
        (λ u. write_buffers buffers)

  -- `flush`
  unfoldable pub flush : Action (CachedStorage db) (Unit {0})
  flush s = elim (write_buffers s.content_to_be_written s.disk) [
    | done u disk ↦ done tt (clear (record s { disk = disk }))
    | failed disk ↦ failed (record s { disk = disk })
  ]

-- `getPendingTransactionsByFileIdentifier`
abbrev pub get_pending_transactions : {db : Database} → CachedStorage db → ℕ → Option (List Bytes)
get_pending_transactions s file_identifier =
    elim (find (file_identifier ∷ []) s.content_to_be_written) [
      | none ↦ none
      | some b ↦ some b.transactions_to_write
    ]
