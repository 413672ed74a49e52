-- ===== src/Storage/Examples.antt =====
-- The storage at concrete inputs.
use carmentis_node.Base.{
  ◌+◌, ◌*◌, ◌≡◌, refl, true, some, [], ◌∷◌, ◌++◌, Bytes, ok, if◌then◌else◌, arith, bytes_eq, ◌==◌,
}
use carmentis_node.Base.Effects.{done}
use carmentis_node.Base.Maps.{find}
use carmentis_node.Database.Memory.{Tables, memory}
use carmentis_node.Database.Stores.{table_id}
use carmentis_node.Storage.Paths.{
  Calendar, RootEntry, filename_of, extension, digits, get_file_identifier, get_file_path,
  directory_of,
}
use carmentis_node.Storage.Cleaner.{remove_expired_data_files, remove_expired_data_files-none}
use carmentis_node.Storage.Files.{Disk, MicroblockStorage, read_stored}
use carmentis_node.Storage.Cached.{
  StorageSdk, CachedStorage, DataFile, add_microblock_to_buffer, flush, read_from_disk, path_of,
  get_data_file,
}
use carmentis_node.Storage.Flushes.{flush-misplaced}
use carmentis_node.Storage.Sequences.{add_all, flush-add_all}

-- Day n is the day of that number in January 2025.
abbrev pub calendar : Calendar
calendar = record {
  decode_day = λ n. (2025, 1, n);
  utc_seconds = λ year month day. (year * 400 + month * 31 + day) * 86400;
  join = λ a b. a ++ (47 ∷ b);
}

-- `2025/20250109.bin`
abbrev old_file : RootEntry
old_file = record {
  name = 50 ∷ 48 ∷ 50 ∷ 53 ∷ [];
  is_directory = true;
  entries =
      record {
        name = 50 ∷ 48 ∷ 50 ∷ 53 ∷ 48 ∷ 49 ∷ 48 ∷ 57 ∷ 46 ∷ 98 ∷ 105 ∷ 110 ∷ [];
        is_file = true;
      }
      ∷ [];
}

name-file_9 :
    50 ∷ 48 ∷ 50 ∷ 53 ∷ 48 ∷ 49 ∷ 48 ∷ 57 ∷ 46 ∷ 98 ∷ 105 ∷ 110 ∷ []
    ≡ filename_of calendar 9 ++ extension
unfolding filename_of digits
name-file_9 = refl

abbrev files : Disk
files = (50 ∷ [], 1 ∷ []) ∷ []

remove_expired_data_files-none_example :
    remove_expired_data_files calendar [] (old_file ∷ []) [] 99999999999 files ≡ files
remove_expired_data_files-none_example =
    remove_expired_data_files-none calendar [] (old_file ∷ []) [] 99999999999 files
      (((9, name-file_9), tt), tt)

abbrev pub decode_storage : Bytes → MicroblockStorage
decode_storage (f ∷ offset ∷ size ∷ l) = record {
  file_identifier = f;
  offset = offset;
  size = size;
}
decode_storage l = record { file_identifier = 0; offset = 0; size = 0 }

abbrev pub decode_data_file : Bytes → DataFile
decode_data_file (size ∷ count ∷ l) = record { file_size = size; microblock_count = count }
decode_data_file l = record { file_size = 0; microblock_count = 0 }

abbrev pub sdk : StorageSdk
sdk = record {
  calendar = calendar;
  path = 100 ∷ [];
  int_to_byte_array = λ n size. n ∷ [];
  load_from_serialized_microblock = λ b. ok (b, []);
  encode_storage = λ s. s.file_identifier ∷ s.offset ∷ s.size ∷ [];
  decode_storage = decode_storage;
  decode-encode_storage = λ s. refl;
  encode_data_file = λ f. f.file_size ∷ f.microblock_count ∷ [];
  decode_data_file = decode_data_file;
  decode-encode_data_file = λ f. refl;
}

-- The file of day 9 has three bytes, and its entry says so.
abbrev counted : Tables
counted u = if u == 1 then (9 ∷ [], 3 ∷ 1 ∷ []) ∷ [] else []

abbrev storage : CachedStorage memory
storage = record {
  content_to_be_written = [];
  cached_microblocks = [];
  store = counted;
  disk = (path_of sdk memory 9, 21 ∷ 22 ∷ 23 ∷ []) ∷ [];
}

-- Two microblocks, of which the first is read back.
flush-add_all_example :
    (s' : CachedStorage memory) × (flush sdk memory
        (add_all sdk memory 9 ((77 ∷ [], 31 ∷ 32 ∷ []) ∷ (78 ∷ [], 41 ∷ []) ∷ []) storage)
      ≡ done tt s')
    × (s'.content_to_be_written ≡ [])
    × (read_from_disk sdk memory s'.disk s'.store (77 ∷ []) ≡ some (31 ∷ 32 ∷ []))
unfolding find get_file_path directory_of filename_of digits bytes_eq get_data_file table_id
flush-add_all_example =
    flush-add_all sdk memory 9 [] (77 ∷ []) (31 ∷ 32 ∷ []) ((78 ∷ [], 41 ∷ []) ∷ []) storage refl
      (refl, tt) refl refl

-- The same, with an entry that counts one byte of the three.
abbrev miscounted : CachedStorage memory
miscounted = record storage { store = λ u. if u == 1 then (9 ∷ [], 1 ∷ 1 ∷ []) ∷ [] else [] }

flush-misplaced_example :
    (s' : CachedStorage memory) × (flush sdk memory
        (add_microblock_to_buffer sdk memory 9 (77 ∷ []) (31 ∷ 32 ∷ []) miscounted)
      ≡ done tt s')
    × (read_from_disk sdk memory s'.disk s'.store (77 ∷ []) ≡ some (22 ∷ 23 ∷ []))
unfolding get_file_identifier find get_file_path directory_of filename_of digits bytes_eq
    get_data_file table_id read_stored
flush-misplaced_example =
    flush-misplaced sdk memory 9 (77 ∷ []) (31 ∷ 32 ∷ []) miscounted refl (omega arith)
      (omega arith)
