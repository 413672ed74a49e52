-- ===== src/Challenge/Manager.antt =====
-- The challenge computed over all data files (ChallengeManager.ts).
use carmentis_node.Base.{
  ℕ, zero, suc, ◌+◌, ◌*◌, ◌%◌, ◌≡◌, refl, true, false, Option, none, some, List, [], ◌∷◌, ◌++◌,
  Bytes, leb, ◌==◌, if◌then◌else◌, Result, ok, thrown, ◌>>=◌, throw_if, length, take, drop,
  get_elem?, replicate, ap, ◌>>◌,
}
use carmentis_node.Base.Maps.{Map}
use carmentis_node.Database.Level
use carmentis_node.Database.Level.{Level, LevelDb}
use carmentis_node.Challenge.File.{ChallengeFile, create, open_file, read_or_fail}

-- What the manager is given: SHA-256 of Node.js and the null hash of the SDK, the size in an encoded
-- data file entry (a codec of the SDK), and what is on the disk at `storage.getFilePath` of a file
-- identifier.
pub record Surroundings : Type 0 where
  pub sha256 : Bytes → Bytes
  pub null_hash : Bytes
  pub decode_file_size : Bytes → Result ℕ
  pub on_disk : ℕ → Option Bytes

abbrev pub files_per_challenge : ℕ
files_per_challenge = 8

abbrev pub parts_per_file : ℕ
parts_per_file = 256

abbrev pub bytes_per_part : ℕ
bytes_per_part = 1024

-- `reduce((t, n) => t * 0x100 + n, 0)`
abbrev pub big_endian : ℕ → Bytes → ℕ
big_endian t [] = t
big_endian t (n ∷ bytes) = big_endian (t * 0x100 + n) bytes

-- A file identifier and its committed size.
abbrev pub Entry : Type 0
Entry = ℕ × ℕ

-- `fileEntries.sort(([key0], [key1]) => key0 - key1)`, which is stable.
unfoldable pub insert_entry : Entry → List Entry → List Entry
insert_entry e [] = e ∷ []
insert_entry e (f ∷ l) = let rest = insert_entry e l in if leb e.0 f.0 then e ∷ f ∷ l else f ∷ rest

unfoldable pub sort_entries : List Entry → List Entry
unfolding insert_entry
sort_entries [] = []
sort_entries (e ∷ l) = insert_entry e (sort_entries l)

-- `prngValue` and `prngCounter`
pub record Prng : Type 0 where
  pub value : Bytes
  pub counter : ℕ

-- The 256 kibibytes that the parts of a file are read into.
pub new_buffer : Bytes
new_buffer = replicate (parts_per_file * bytes_per_part) 0

length-replicate : (n a : ℕ) → length (replicate n a) ≡ n
length-replicate zero a = refl
length-replicate (suc n) a = ap suc (length-replicate n a)

pub length-new_buffer : length new_buffer ≡ parts_per_file * bytes_per_part
unfolding new_buffer
length-new_buffer = length-replicate (parts_per_file * bytes_per_part) 0

-- `getRandom48`
unfoldable pub get_random48 : (Bytes → Bytes) → Prng → ℕ × Prng
get_random48 sha256 p =
    let index = p.counter % 5 * 6 in
    let value = if index == 0 then sha256 p.value else p.value in
    (big_endian 0 (take 6 (drop index value)), record { value = value; counter = p.counter + 1 })

-- The list of pairs of identifier and size.
unfoldable pub decode_entries : (Bytes → Result ℕ) → Map Bytes → Result (List Entry)
decode_entries decode_file_size [] = ok []
decode_entries decode_file_size ((key, data_file) ∷ table) = do
  file_size ← decode_file_size data_file
  rest ← decode_entries decode_file_size table
  ok ((big_endian 0 key, file_size) ∷ rest)

module _ (s : Surroundings) where
  -- The loop over the parts of a file. The remainder by a committed size of 0 is NaN, a position
  -- that `handle.read` refuses.
  unfoldable pub read_parts : ℕ → ChallengeFile → Bytes → ℕ → Prng → Result (Bytes × Prng)
  read_parts zero f buffer buffer_offset p = ok (buffer, p)
  read_parts (suc parts) f buffer buffer_offset p = do
    let (random, p') = get_random48 s.sha256 p
    throw_if (f.committed_size == 0)
    buffer' ← read_or_fail f buffer buffer_offset bytes_per_part (random % f.committed_size)
    read_parts parts f buffer' (buffer_offset + bytes_per_part) p'

  -- The loop over the files.
  unfoldable pub read_files : ℕ → List Entry → Bytes → Bytes → Prng → Result Bytes
  unfolding read_parts
  read_files zero entries buffer hash p = ok hash
  read_files (suc files) entries buffer hash p =
      let (random, p') = get_random48 s.sha256 p in
      elim (get_elem? entries (random % length entries)) [
        | none ↦ thrown
        | some (file_identifier, committed_size) ↦ do
          f ← open_file (create (s.on_disk file_identifier) committed_size)
          (buffer', p'') ← read_parts parts_per_file f buffer 0 p'
          let new_hash = s.sha256 buffer'
          read_files files entries buffer' (s.sha256 (hash ++ new_hash)) p''
      ]

  -- `processChallenge` on the sorted entries.
  unfoldable pub challenge_entries : List Entry → Bytes → Result Bytes
  challenge_entries entries seed = elim (length entries == 0) [
    | true ↦ ok s.null_hash
    | false ↦
        read_files files_per_challenge entries new_buffer s.null_hash
          (record { value = seed; counter = 0 })
  ]

  -- `processChallenge`
  unfoldable pub process_challenge : (level : Level) → LevelDb level → Bytes → Result Bytes
  process_challenge level db seed = do
    table ← Level.get_full_table level db 0x01
    entries ← decode_entries s.decode_file_size table
    challenge_entries (sort_entries entries) seed
