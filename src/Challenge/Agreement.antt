-- ===== src/Challenge/Agreement.antt =====
-- The challenge: it ends, and nodes that hold the same committed bytes compute the same hash.
use native.Mathlib.Nat.{mod-lt}
use carmentis_node.Base.{
  ℕ, zero, suc, ◌+◌, ◌*◌, ◌%◌, ◌≤◌, ◌<◌, ◌≡◌, refl, false, Option, some, List, [], ◌∷◌, ◌++◌, inl,
  inr, Bool-cases, Bytes, arith, ◌==◌, ok, length, take, get_elem?, sym, ◌∙◌, ap,
}
use carmentis_node.Base.Maps.{Map}
use carmentis_node.Base.Cuts.{overwrite}
use carmentis_node.Database.Level
use carmentis_node.Database.Level.{Level, LevelDb}
use carmentis_node.Challenge.File.{ChallengeFile, create, open_file}
use carmentis_node.Challenge.Reads.{circular, read_or_fail-circular, circular_congr, length-read}
use carmentis_node.Challenge.Manager.{
  Surroundings, Entry, Prng, get_random48, read_parts, read_files, new_buffer, length-new_buffer,
  challenge_entries, sort_entries, decode_entries, process_challenge, parts_per_file,
  bytes_per_part, files_per_challenge,
}

get_elem?-lt : (l : List Entry) (i : ℕ) → i < length l → (e : Entry) × (get_elem? l i ≡ some e)
get_elem?-lt [] i h = absurd (omega arith)
get_elem?-lt (e ∷ l) zero h = (e, refl)
get_elem?-lt (e ∷ l) (suc i) h = get_elem?-lt l i (omega arith)

-- Two disks hold the committed bytes of a file.
pub record Agree (first second : ℕ → Option Bytes) (e : Entry) : Type 0 where
  pub left : Bytes
  pub right : Bytes
  pub on_first : first e.0 ≡ some left
  pub on_second : second e.0 ≡ some right
  pub positive : 0 < e.1
  pub left_size : e.1 ≤ length left
  pub right_size : e.1 ≤ length right
  pub same : take e.1 left ≡ take e.1 right

module _ (s : Surroundings) (other : ℕ → Option Bytes) where
  -- The same node but for its disk.
  abbrev pub s' : Surroundings
  s' = record s { on_disk = other }

  module _ (e : Entry) (agree : Agree s.on_disk other e) where
    -- The file of the entry, opened.
    abbrev opened : Bytes → ChallengeFile
    opened content = record { on_disk = some content; handle = some content; committed_size = e.1 }

    read_parts-agrees :
        (parts : ℕ) (buffer : Bytes) (buffer_offset : ℕ) (p : Prng)
        → buffer_offset + parts * bytes_per_part ≤ length buffer
        → (result : Bytes × Prng) × (read_parts s parts (opened agree.left) buffer buffer_offset p
            ≡ ok result)
          × (read_parts s' parts (opened agree.right) buffer buffer_offset p ≡ ok result)
          × (length result.0 ≡ length buffer)
    unfolding read_parts
    read_parts-agrees zero buffer bo p room = ((buffer, p), refl, refl, refl)
    read_parts-agrees (suc parts) buffer bo p room =
        let random = (get_random48 s.sha256 p).0 in
        let next = (get_random48 s.sha256 p).1 in
        let nonzero : (e.1 == 0) ≡ false = ground (arith, agree.positive) in
        let below : random % e.1 < e.1 = mod-lt random agree.positive in
        let here : bo + bytes_per_part ≤ length buffer = omega arith in
        let one =
          read_or_fail-circular agree.left e.1 (opened agree.left) buffer bo bytes_per_part
            (random % e.1) refl refl below agree.left_size here in
        let two =
          read_or_fail-circular agree.right e.1 (opened agree.right) buffer bo bytes_per_part
            (random % e.1) refl refl below agree.right_size here in
        let same =
          circular_congr agree.left agree.right e.1 bytes_per_part (random % e.1) below
            agree.same in
        let read = overwrite buffer bo (circular agree.left e.1 bytes_per_part (random % e.1)) in
        let two' = two ∙ ap (λ l. ok (overwrite buffer bo l)) (sym same) in
        let kept = length-read agree.left buffer e.1 bo bytes_per_part (random % e.1) here in
        let (result, left, right, length_kept) =
          read_parts-agrees parts read (bo + bytes_per_part) next (omega (arith, kept)) in
        (result, rw nonzero (rw one left), rw nonzero (rw two' right), length_kept ∙ kept)

  open_file-disk :
      (disk : Option Bytes) (content : Bytes) (size : ℕ)
      → disk ≡ some content
      → size ≤ length content
      → open_file (create disk size)
        ≡ ok (record { on_disk = some content; handle = some content; committed_size = size })
  unfolding open_file
  open_file-disk disk content size e h = ground (arith, e)

  read_files-suc :
      (t : Surroundings) (files : ℕ) (entries : List Entry) (buffer hash : Bytes) (p : Prng)
      (e : Entry) (f : ChallengeFile) (result : Bytes × Prng)
      → get_elem? entries ((get_random48 t.sha256 p).0 % length entries) ≡ some e
      → open_file (create (t.on_disk e.0) e.1) ≡ ok f
      → read_parts t parts_per_file f buffer 0 (get_random48 t.sha256 p).1 ≡ ok result
      → read_files t (suc files) entries buffer hash p
        ≡ read_files t files entries result.0 (t.sha256 (hash ++ t.sha256 result.0)) result.1
  unfolding read_files
  read_files-suc t files entries buffer hash p e f result found opened_file parts =
      ground (arith, found, opened_file, parts)

  module _ (entries : List Entry)
      (agree : (rank : ℕ) (e : Entry)
        → get_elem? entries rank ≡ some e
        → Agree s.on_disk other e) where
    read_files-agrees :
        (files : ℕ) (buffer hash : Bytes) (p : Prng)
        → 0 < length entries
        → length buffer ≡ parts_per_file * bytes_per_part
        → (result : Bytes) × (read_files s files entries buffer hash p ≡ ok result)
          × (read_files s' files entries buffer hash p ≡ ok result)
    unfolding read_files
    read_files-agrees zero buffer hash p some_file room = (hash, refl, refl)
    read_files-agrees (suc files) buffer hash p some_file room =
        let random = (get_random48 s.sha256 p).0 in
        let next = (get_random48 s.sha256 p).1 in
        let (e, found) = get_elem?-lt entries (random % length entries) (mod-lt random some_file) in
        let a = agree (random % length entries) e found in
        let (parts, left, right, kept) =
          read_parts-agrees e a parts_per_file buffer 0 next (omega (arith, room)) in
        let hash' = s.sha256 (hash ++ s.sha256 parts.0) in
        let (result, one, two) =
          read_files-agrees files parts.0 hash' parts.1 some_file (kept ∙ room) in
        (
          result,
          read_files-suc s files entries buffer hash p e (opened e a a.left) parts found
                (open_file-disk (s.on_disk e.0) a.left e.1 a.on_first a.left_size) left
              ∙ one,
          read_files-suc s' files entries buffer hash p e (opened e a a.right) parts found
                (open_file-disk (other e.0) a.right e.1 a.on_second a.right_size) right
              ∙ two,
        )

    challenge_entries-agrees :
        (seed : Bytes)
        → (result : Bytes) × (challenge_entries s entries seed ≡ ok result)
          × (challenge_entries s' entries seed ≡ ok result)
    unfolding challenge_entries
    challenge_entries-agrees seed = elim (Bool-cases (length entries == 0)) [
      | inl empty ↦ (s.null_hash, ground (arith, empty), ground (arith, empty))
      | inr nonempty ↦
          let (result, one, two) =
            read_files-agrees files_per_challenge new_buffer s.null_hash
              (record { value = seed; counter = 0 }) (ground arith) length-new_buffer in
          (result, ground (arith, nonempty, one), ground (arith, nonempty, two))
    ]

  -- Two nodes with the same table of data files, of which each holds on its disk at least the
  -- committed bytes of every file, with the same committed bytes and a positive committed size, both
  -- end the challenge for a seed without an error, and with the same hash.
  pub process_challenge-agrees :
      (level : Level) (db : LevelDb level) (seed : Bytes) (table : Map Bytes) (entries : List Entry)
      → Level.get_full_table level db 0x01 ≡ ok table
      → decode_entries s.decode_file_size table ≡ ok entries
      → ((rank : ℕ) (e : Entry)
          → get_elem? (sort_entries entries) rank ≡ some e
          → Agree s.on_disk other e)
      → (result : Bytes) × (process_challenge s level db seed ≡ ok result)
        × (process_challenge (record s { on_disk = other }) level db seed ≡ ok result)
  unfolding process_challenge
  process_challenge-agrees level db seed table entries read decoded agree =
      let (result, one, two) = challenge_entries-agrees (sort_entries entries) agree seed in
      (result, rw read (rw decoded one), rw read (rw decoded two))
