-- ===== src/Storage/Sequences.antt =====
-- Any number of microblocks of one day are buffered and flushed (CachedStorage.ts, Storage.ts).
use mathlib.Core.List.{append_assoc, append-nil}
use carmentis_node.Base.{
  ℕ, ◌+◌, ◌≡◌, ◌∙◌, refl, sym, ap, false, some, List, [], ◌∷◌, ◌++◌, Bytes, length, length-append,
  arith, bytes_eq, bytes_eq_iff, ◌==◌,
}
use carmentis_node.Base.Maps.{Map, find, insert}
use carmentis_node.Base.Effects.{done, state_of}
use carmentis_node.Database.Stores.{Table, table_id, Database}
use carmentis_node.Storage.Paths.{get_file_identifier}
use carmentis_node.Storage.Files.{write_transactions, MicroblockStorage}
use carmentis_node.Storage.Appends.{
  content_of, joined, joined-append, write_transactions-read_stored,
}
use carmentis_node.Storage.Cached.{
  StorageSdk, CachedStorage, BufferedTransactions, DataFile, path_of, get_data_file,
  get_microblock_storage, put_microblock_storage, read_from_disk, add_microblock_to_buffer,
  push_transaction, write_buffers, flush,
}
use carmentis_node.Storage.Flushes.{write_transactions-ends, add_microblock_to_buffer-entries}

-- A buffer for one file: nothing, or the transactions and the size before them.
abbrev pub buffer_of : ℕ → ℕ → List Bytes → Map BufferedTransactions
buffer_of f base [] = []
buffer_of f base (tx ∷ txs) =
    (f ∷ [], record { transactions_to_write = tx ∷ txs; expected_file_size_before_to_write = base })
    ∷ []

abbrev bodies : List (Bytes × Bytes) → List Bytes
bodies [] = []
bodies ((hash, body) ∷ l) = body ∷ bodies l

-- No microblock of a list has a hash.
abbrev pub IsFresh : Bytes → List (Bytes × Bytes) → Type 0
IsFresh hash [] = Unit
IsFresh hash ((h, body) ∷ l) = (bytes_eq h hash ≡ false) × IsFresh hash l

module _ (sdk : StorageSdk) (db : Database) (f : ℕ) where
  -- The microblocks of a list, hash and content, are put into the buffer in order.
  unfoldable pub add_all : List (Bytes × Bytes) → CachedStorage db → CachedStorage db
  unfolding add_microblock_to_buffer
  add_all [] s = s
  add_all ((hash, body) ∷ l) s = add_all l (add_microblock_to_buffer sdk db f hash body s)

  push_transaction-buffer_of :
      (base size : ℕ) (txs : List Bytes) (tx : Bytes)
      → size ≡ base + length (joined txs)
      → push_transaction sdk db f tx size (buffer_of f base txs)
        ≡ buffer_of f base (txs ++ (tx ∷ []))
  unfolding push_transaction find insert
  push_transaction-buffer_of base size [] tx e = ground (arith, e)
  push_transaction-buffer_of base size (t ∷ txs) tx e =
      ground (arith, bytes_eq_iff (f ∷ []) (f ∷ []))

  abbrev size_in : CachedStorage db → ℕ
  size_in s = (get_data_file sdk db s.store (sdk.int_to_byte_array f 4)).file_size

  -- The buffer holds these transactions for the file, which the entry of the file counts.
  abbrev IsBuffered : CachedStorage db → ℕ → List Bytes → Type 0
  IsBuffered s base txs =
      (s.content_to_be_written ≡ buffer_of f base txs) × (size_in s ≡ base + length (joined txs))

  add-IsBuffered :
      (hash body : Bytes) (s : CachedStorage db) (base : ℕ) (txs : List Bytes)
      → (f == 0) ≡ false
      → IsBuffered s base txs
      → IsBuffered (add_microblock_to_buffer sdk db f hash body s) base (txs ++ (body ∷ []))
  unfolding add_microblock_to_buffer get_file_identifier
  add-IsBuffered hash body s base txs day (buffered, counted) =
      let (located, counted') = add_microblock_to_buffer-entries sdk db f hash body s in
      (
        rw buffered
            (ground (arith, day, push_transaction-buffer_of base (size_in s) txs body counted)),
        ground (
          arith,
          day,
          counted',
          counted,
          ap (λ (b : Bytes). length b) (joined-append txs (body ∷ [])),
          length-append (joined txs) (body ++ []),
          length-append body [],
        ),
      )

  -- The place of a microblock stays where it is while microblocks with other hashes are added.
  add-place :
      (hash h body : Bytes) (s : CachedStorage db)
      → bytes_eq h hash ≡ false
      → get_microblock_storage sdk db (add_microblock_to_buffer sdk db f h body s).store hash
        ≡ get_microblock_storage sdk db s.store hash
  unfolding add_microblock_to_buffer table_id
  add-place hash h body s other =
      let file = get_file_identifier f h in
      let key = sdk.int_to_byte_array file 4 in
      let old = get_data_file sdk db s.store key in
      let info : MicroblockStorage = record {
        file_identifier = file;
        offset = old.file_size;
        size = length body;
      } in
      let located = put_microblock_storage sdk db s.store h info in
      let counted : DataFile = record {
        file_size = old.file_size + length body;
        microblock_count = old.microblock_count + 1;
      } in
      ground (
        arith,
        other,
        db.get-put located Table.data_file Table.microblock_storage key hash
            (sdk.encode_data_file counted),
        db.get-put s.store Table.microblock_storage Table.microblock_storage h hash
            (sdk.encode_storage info),
      )

  add_all-place :
      (hash : Bytes) (l : List (Bytes × Bytes)) (s : CachedStorage db)
      → IsFresh hash l
      → get_microblock_storage sdk db (add_all l s).store hash
        ≡ get_microblock_storage sdk db s.store hash
  unfolding add_all
  add_all-place hash [] s fresh = refl
  add_all-place hash ((h, body) ∷ l) s (other, fresh) =
      add_all-place hash l (add_microblock_to_buffer sdk db f h body s) fresh
      ∙ add-place hash h body s other

  add_all-IsBuffered :
      (l : List (Bytes × Bytes)) (s : CachedStorage db) (base : ℕ) (txs : List Bytes)
      → (f == 0) ≡ false
      → IsBuffered s base txs
      → IsBuffered (add_all l s) base (txs ++ bodies l)
  unfolding add_all
  add_all-IsBuffered [] s base txs day h = rw (append-nil txs) h
  add_all-IsBuffered ((hash, body) ∷ l) s base txs day h =
      rw (← append_assoc txs (body ∷ []) (bodies l)) (
        add_all-IsBuffered l (add_microblock_to_buffer sdk db f hash body s) base
          (txs ++ (body ∷ [])) day (add-IsBuffered hash body s base txs day h))

  add-disk :
      (hash body : Bytes) (s : CachedStorage db)
      → (add_microblock_to_buffer sdk db f hash body s).disk ≡ s.disk
  unfolding add_microblock_to_buffer
  add-disk hash body s = refl

  add_all-disk : (l : List (Bytes × Bytes)) (s : CachedStorage db) → (add_all l s).disk ≡ s.disk
  unfolding add_all add_microblock_to_buffer
  add_all-disk [] s = refl
  add_all-disk ((hash, body) ∷ l) s = add_all-disk l (add_microblock_to_buffer sdk db f hash body s)

  add_all-append :
      (l k : List (Bytes × Bytes)) (s : CachedStorage db)
      → add_all (l ++ k) s ≡ add_all k (add_all l s)
  unfolding add_all
  add_all-append [] k s = refl
  add_all-append ((hash, body) ∷ l) k s =
      add_all-append l k (add_microblock_to_buffer sdk db f hash body s)

  buffer_of-append :
      (base : ℕ) (before after : List Bytes) (tx : Bytes)
      → buffer_of f base (before ++ (tx ∷ after))
        ≡ (
          f ∷ [],
          record {
            transactions_to_write = before ++ (tx ∷ after);
            expected_file_size_before_to_write = base;
          },
        )
          ∷ []
  buffer_of-append base [] after tx = refl
  buffer_of-append base (t ∷ before) after tx = refl

  -- A flush of a buffer for one file that is as long as expected writes the transactions.
  flush_buffer :
      (s : CachedStorage db) (base : ℕ) (before after : List Bytes) (tx : Bytes)
      → s.content_to_be_written ≡ buffer_of f base (before ++ (tx ∷ after))
      → length (content_of s.disk (path_of sdk db f)) ≡ base
      → flush sdk db s
        ≡ done tt (record s {
          content_to_be_written = [];
          cached_microblocks = [];
          disk =
              state_of (write_transactions (path_of sdk db f) base (before ++ (tx ∷ after)) s.disk);
        })
  unfolding flush write_buffers
  flush_buffer s base before after tx buffered expected =
      let ends =
        write_transactions-ends (path_of sdk db f) base (before ++ (tx ∷ after)) s.disk
          (omega (arith, expected)) in
      ground (arith, buffered, buffer_of-append base before after tx, ends)

  -- Microblocks of one day are put into the empty buffer in order and flushed, where the file has
  -- the size that its entry counts: the flush does not throw, and each of them whose hash none of
  -- the later ones has is read back from the disk.
  pub flush-add_all :
      (before : List (Bytes × Bytes)) (hash body : Bytes) (after : List (Bytes × Bytes))
      (s : CachedStorage db)
      → (f == 0) ≡ false
      → IsFresh hash after
      → s.content_to_be_written ≡ []
      → length (content_of s.disk (path_of sdk db f))
        ≡ (get_data_file sdk db s.store (sdk.int_to_byte_array f 4)).file_size
      → (s' : CachedStorage db) × (flush sdk db (add_all (before ++ ((hash, body) ∷ after)) s)
          ≡ done tt s')
        × (s'.content_to_be_written ≡ [])
        × (read_from_disk sdk db s'.disk s'.store hash ≡ some body)
  unfolding read_from_disk get_file_identifier add_all
  flush-add_all before hash body after s day fresh nothing counted =
      let base = size_in s in
      let s1 = add_all before s in
      let s2 = add_microblock_to_buffer sdk db f hash body s1 in
      let s3 = add_all after s2 in
      let first = add_all-IsBuffered before s base [] day (nothing, omega arith) in
      let whole =
        add_all-IsBuffered after s2 base (bodies before ++ (body ∷ [])) day
          (add-IsBuffered hash body s1 base (bodies before) day first) in
      let same_disk : s3.disk ≡ s.disk =
        add_all-disk after s2 ∙ add-disk hash body s1 ∙ add_all-disk before s in
      let txs = bodies before ++ (body ∷ bodies after) in
      let order : (bodies before ++ (body ∷ [])) ++ bodies after ≡ txs =
        append_assoc (bodies before) (body ∷ []) (bodies after) in
      let buffered : s3.content_to_be_written ≡ buffer_of f base txs = rw (sym order) whole.0 in
      let expected : length (content_of s3.disk (path_of sdk db f)) ≡ base = rw same_disk counted in
      let flushed = flush_buffer s3 base (bodies before) (bodies after) body buffered expected in
      let back =
        write_transactions-read_stored (path_of sdk db f) base (bodies before) body (bodies after)
          s3.disk (state_of (write_transactions (path_of sdk db f) base txs s3.disk))
          (write_transactions-ends (path_of sdk db f) base txs s3.disk (omega (arith, expected)))
          expected in
      let (located, counted') = add_microblock_to_buffer-entries sdk db f hash body s1 in
      let place = add_all-place hash after s2 fresh in
      (
        record s3 {
          content_to_be_written = [];
          cached_microblocks = [];
          disk = state_of (write_transactions (path_of sdk db f) base txs s3.disk);
        },
        rw (add_all-append before ((hash, body) ∷ after) s) flushed,
        refl,
        ground (arith, place, located, day, first.1, back),
      )
