-- ===== src/Challenge/File.antt =====
-- A data file read round up to its committed size (ChallengeFile.ts).
use carmentis_node.Base.{
  ℕ, zero, suc, ◌+◌, ◌-◌, true, false, Option, none, some, ◌++◌, Bytes, ltb, ◌==◌, if◌then◌else◌,
  Result, ok, thrown, ◌>>=◌, ◌>>◌, throw_if, length, take, drop,
}

-- `ChallengeFile`: what is at its path, if there is a file, and what its handle reads, if it is
-- open.
pub record ChallengeFile : Type 0 where
  pub on_disk : Option Bytes
  pub handle : Option Bytes
  pub committed_size : ℕ

-- The constructor.
abbrev pub create : Option Bytes → ℕ → ChallengeFile
create on_disk committed_size = record {
  on_disk = on_disk;
  handle = none;
  committed_size = committed_size;
}

-- The size that `open` finds: 0 if the file cannot be opened.
abbrev pub size_of : Option Bytes → ℕ
size_of none = 0
size_of (some content) = length content

-- `open`
unfoldable pub open_file : ChallengeFile → Result ChallengeFile
open_file f =
    throw_if (ltb (size_of f.on_disk) f.committed_size) >> ok (record f { handle = f.on_disk })

-- `close`
unfoldable pub close_file : ChallengeFile → ChallengeFile
close_file f = record f { handle = none }

-- `handle.read(buffer, bufferOffset, size, fileOffset)` of Node.js on a file with this content: the
-- buffer after it and `bytesRead`. It throws if the size does not fit in the buffer.
unfoldable pub handle_read : Bytes → Bytes → ℕ → ℕ → ℕ → Result (Bytes × ℕ)
handle_read content buffer buffer_offset size file_offset =
    let part = take size (drop file_offset content) in
    throw_if (ltb (length buffer) (buffer_offset + size))
    >> ok (
      take buffer_offset buffer ++ (part ++ drop (buffer_offset + length part) buffer),
      length part,
    )

-- `Math.min`
abbrev pub min_of : ℕ → ℕ → ℕ
min_of a b = if ltb a b then a else b

module _ (content : Bytes) (committed_size : ℕ) where
  -- The loop of `readOrFail`. A negative size, from an offset over the committed size, is refused
  -- by `handle.read`.
  unfoldable pub read_loop : ℕ → Bytes → ℕ → ℕ → ℕ → Result Bytes
  unfolding handle_read
  read_loop zero buffer buffer_offset remaining file_offset = thrown
  read_loop (suc fuel) buffer buffer_offset remaining file_offset = elim (remaining == 0) [
    | true ↦ ok buffer
    | false ↦ do
      throw_if (ltb committed_size file_offset)
      let size_to_read = min_of (committed_size - file_offset) remaining
      (buffer', bytes_read) ← handle_read content buffer buffer_offset size_to_read file_offset
      throw_if (ltb bytes_read size_to_read)
      read_loop fuel buffer' (buffer_offset + size_to_read) (remaining - size_to_read) 0
  ]

-- `readOrFail`. A round that is not the first reads a byte or more of a file with a positive
-- committed size.
unfoldable pub read_or_fail : ChallengeFile → Bytes → ℕ → ℕ → ℕ → Result Bytes
unfolding read_loop
read_or_fail f buffer buffer_offset total_size file_offset = elim f.handle [
  | none ↦ thrown
  | some content ↦
      read_loop content f.committed_size (total_size + 2) buffer buffer_offset total_size
        file_offset
]
