-- ===== src/Snapshots/Chunks.antt =====
-- The list of chunks of a snapshot (`createChunksFile` of SnapshotsManager.ts).
use carmentis_node.Base.{
  ℕ, zero, suc, ◌+◌, ◌-◌, true, false, List, [], ◌∷◌, ◌++◌, ltb, ◌==◌, if◌then◌else◌, Result, ok,
  thrown, ◌>>=◌,
}

-- A chunk record, before it is encoded.
pub record ChunkRecord : Type 0 where
  pub file_identifier : ℕ
  pub offset : ℕ
  pub size : ℕ

-- `chunks`, `currentChunk` and `currentChunkSize`
pub record Progress : Type 0 where
  pub chunks : List (List ChunkRecord)
  pub current : List ChunkRecord
  pub current_size : ℕ

abbrev pub start : Progress
start = record { chunks = []; current = []; current_size = 0 }

-- `if (size) currentChunk.push(record)`
abbrev pub push_record : List ChunkRecord → ℕ → ℕ → ℕ → List ChunkRecord
push_record current file_identifier offset size =
    if size == 0
    then current
    else current
      ++ (record { file_identifier = file_identifier; offset = offset; size = size } ∷ [])

module _ (chunk_size : ℕ) where
  -- The body of the inner loop: the current chunk is filled and closed.
  unfoldable pub close_chunk : Progress → ℕ → ℕ → Progress
  close_chunk s file_identifier offset = record {
    chunks =
        s.chunks
        ++ (push_record s.current file_identifier offset (chunk_size - s.current_size) ∷ []);
    current = [];
    current_size = 0;
  }

  -- What follows the inner loop: the rest of the file goes to the current chunk.
  unfoldable pub add_rest : Progress → ℕ → ℕ → ℕ → Progress
  add_rest s file_identifier offset remaining = record s {
    current = push_record s.current file_identifier offset remaining;
    current_size = s.current_size + remaining;
  }

  -- The body of the outer loop, from an offset of the file on.
  unfoldable pub split_file : ℕ → Progress → ℕ → ℕ → ℕ → Result Progress
  split_file zero s file_identifier offset remaining = thrown
  split_file (suc fuel) s file_identifier offset remaining =
      elim (ltb chunk_size (s.current_size + remaining)) [
        | true ↦
            split_file fuel (close_chunk s file_identifier offset) file_identifier
              (offset + (chunk_size - s.current_size)) (remaining - (chunk_size - s.current_size))
        | false ↦ ok (add_rest s file_identifier offset remaining)
      ]

  -- The outer loop, over the identifiers and committed sizes of the files. With a positive chunk
  -- size all rounds of an inner loop but the first take a byte or more.
  unfoldable pub split_files : List (ℕ × ℕ) → Progress → Result Progress
  split_files [] s = ok s
  split_files ((file_identifier, committed_size) ∷ files) s = do
    s' ← split_file (committed_size + 2) s file_identifier 0 committed_size
    split_files files s'

  -- The last chunk.
  abbrev pub finish : Progress → List (List ChunkRecord)
  finish s = if s.current_size == 0 then s.chunks else s.chunks ++ (s.current ∷ [])

  -- `createChunksFile`, up to the writing of the file.
  unfoldable pub create_chunks : List (ℕ × ℕ) → Result (List (List ChunkRecord))
  create_chunks files = do s ← split_files files start; ok (finish s)
