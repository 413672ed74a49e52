-- ===== src/Storage/Flushes.antt =====
-- A microblock that was buffered and flushed is read back from its file (CachedStorage.ts,
-- Storage.ts).
use carmentis_node.Base.{
  ◌<◌, ◌≤◌, ℕ, ◌+◌, ◌≡◌, refl, some, List, [], ◌∷◌, Bytes, length, arith, bytes_eq_iff,
}
use carmentis_node.Base.Maps.{find, insert}
use carmentis_node.Base.Effects.{done, state_of}
use carmentis_node.Database.Stores.{Table, table_id, Database}
use carmentis_node.Storage.Paths.{get_file_identifier}
use carmentis_node.Storage.Files.{
  Disk, open_for_writing, write_transactions, MicroblockStorage, read_stored,
}
use carmentis_node.Storage.Appends.{
  write_transactions-kept, content_of, write_transactions-read_stored,
}
use carmentis_node.Storage.Cached.{
  StorageSdk, CachedStorage, DataFile, path_of, get_data_file, get_microblock_storage,
  read_from_disk, add_microblock_to_buffer, push_transaction, write_buffers, flush,
}

pub write_transactions-ends :
    (path : Bytes) (expected : ℕ) (transactions : List Bytes) (disk : Disk)
    → expected ≤ length (content_of disk path)
    → write_transactions path expected transactions disk
      ≡ done tt (state_of (write_transactions path expected transactions disk))
unfolding write_transactions open_for_writing
write_transactions-ends path expected transactions disk e = ground (arith, e)

module _ (sdk : StorageSdk) (db : Database) where
  -- What is known of the table of data files about the file of a microblock.
  abbrev pub IsCounted : CachedStorage db → ℕ → Type 0
  IsCounted s file_identifier =
      length (content_of s.disk (path_of sdk db file_identifier))
      ≡ (get_data_file sdk db s.store (sdk.int_to_byte_array file_identifier 4)).file_size

  -- The entry of the microblock, and that of its file, after it was put into the buffer.
  pub add_microblock_to_buffer-entries :
      (day : ℕ) (hash serialized : Bytes) (s : CachedStorage db)
      → (get_microblock_storage sdk db
            (add_microblock_to_buffer sdk db day hash serialized s).store
            hash
          ≡ some (record {
            file_identifier = get_file_identifier day hash;
            offset =
                (get_data_file sdk db s.store
                  (sdk.int_to_byte_array (get_file_identifier day hash) 4)).file_size;
            size = length serialized;
          }))
        × ((get_data_file sdk db
              (add_microblock_to_buffer sdk db day hash serialized s).store
              (sdk.int_to_byte_array (get_file_identifier day hash) 4)).file_size
            ≡ (get_data_file sdk db s.store
                (sdk.int_to_byte_array (get_file_identifier day hash) 4)).file_size
              + length serialized)
  unfolding add_microblock_to_buffer get_data_file table_id
  add_microblock_to_buffer-entries day hash serialized s =
      let f = get_file_identifier day hash in
      let key = sdk.int_to_byte_array f 4 in
      let old = get_data_file sdk db s.store key in
      let info : MicroblockStorage = record {
        file_identifier = f;
        offset = old.file_size;
        size = length serialized;
      } in
      let file : DataFile = record {
        file_size = old.file_size + length serialized;
        microblock_count = old.microblock_count + 1;
      } in
      let located = db.put_raw s.store Table.microblock_storage hash (sdk.encode_storage info) in
      (
        ground (
          arith,
          sdk.decode-encode_storage info,
          bytes_eq_iff hash hash,
          db.get-put located Table.data_file Table.microblock_storage key hash
              (sdk.encode_data_file file),
          db.get-put s.store Table.microblock_storage Table.microblock_storage hash hash
              (sdk.encode_storage info),
        ),
        ground (
          arith,
          sdk.decode-encode_data_file file,
          bytes_eq_iff key key,
          db.get-put located Table.data_file Table.data_file key key (sdk.encode_data_file file),
        ),
      )

  -- With nothing in the buffer, and a file of the size that its entry counts, a microblock that is
  -- put into the buffer and flushed is read back from the disk; the flush does not throw.
  pub flush-read_from_disk :
      (day : ℕ) (hash serialized : Bytes) (s : CachedStorage db)
      → s.content_to_be_written ≡ []
      → IsCounted s (get_file_identifier day hash)
      → (s' : CachedStorage db) × (flush sdk db
            (add_microblock_to_buffer sdk db day hash serialized s)
          ≡ done tt s')
        × (s'.content_to_be_written ≡ [])
        × (read_from_disk sdk db s'.disk s'.store hash ≡ some serialized)
  unfolding flush write_buffers read_from_disk add_microblock_to_buffer push_transaction find insert
  flush-read_from_disk day hash serialized s nothing counted =
      let f = get_file_identifier day hash in
      let old = get_data_file sdk db s.store (sdk.int_to_byte_array f 4) in
      let added = add_microblock_to_buffer sdk db day hash serialized s in
      let written = write_transactions (path_of sdk db f) old.file_size (serialized ∷ []) s.disk in
      let ends =
        write_transactions-ends (path_of sdk db f) old.file_size (serialized ∷ []) s.disk
          (omega (arith, counted)) in
      let back =
        write_transactions-read_stored (path_of sdk db f) old.file_size [] serialized [] s.disk
          (state_of written) ends counted in
      let (located, counted') = add_microblock_to_buffer-entries day hash serialized s in
      (
        record added {
          content_to_be_written = [];
          cached_microblocks = [];
          disk = state_of written;
        },
        ground (arith, nothing, ends),
        refl,
        ground (arith, located, back),
      )

  -- With nothing in the buffer, where the file is longer than its entry counts by the size of the
  -- microblock or more, the flush does not throw, and what is read back for the microblock is the
  -- part of the old file at the counted size, whatever the microblock holds.
  pub flush-misplaced :
      (day : ℕ) (hash serialized : Bytes) (s : CachedStorage db)
      → s.content_to_be_written ≡ []
      → 0 < length serialized
      → (get_data_file sdk db s.store
            (sdk.int_to_byte_array (get_file_identifier day hash) 4)).file_size
          + length serialized
        ≤ length (content_of s.disk (path_of sdk db (get_file_identifier day hash)))
      → (s' : CachedStorage db) × (flush sdk db
            (add_microblock_to_buffer sdk db day hash serialized s)
          ≡ done tt s')
        × (read_from_disk sdk db s'.disk s'.store hash
            ≡ read_stored s.disk
                (path_of sdk db (get_file_identifier day hash))
                (get_data_file sdk db s.store
                  (sdk.int_to_byte_array (get_file_identifier day hash) 4)).file_size
                (length serialized))
  unfolding flush write_buffers read_from_disk add_microblock_to_buffer push_transaction find insert
  flush-misplaced day hash serialized s nothing positive longer =
      let f = get_file_identifier day hash in
      let old = get_data_file sdk db s.store (sdk.int_to_byte_array f 4) in
      let added = add_microblock_to_buffer sdk db day hash serialized s in
      let written = write_transactions (path_of sdk db f) old.file_size (serialized ∷ []) s.disk in
      let ends =
        write_transactions-ends (path_of sdk db f) old.file_size (serialized ∷ []) s.disk
          (omega (arith, longer)) in
      let kept =
        write_transactions-kept (path_of sdk db f) old.file_size (serialized ∷ []) s.disk
          (state_of written) old.file_size (length serialized) ends positive longer in
      let (located, counted) = add_microblock_to_buffer-entries day hash serialized s in
      (
        record added {
          content_to_be_written = [];
          cached_microblocks = [];
          disk = state_of written;
        },
        ground (arith, nothing, ends),
        ground (arith, located, kept),
      )
