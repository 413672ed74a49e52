-- ===== src/Snapshots/Examples.antt =====
-- Runs of the making of chunks and of the copies, and their theorems at concrete inputs.
use carmentis_node.Base.{some, ℕ, ◌<◌, ◌≤◌, ◌≡◌, refl, ◌⊎◌, List, [], ◌∷◌, ◌++◌, arith, ok}
use carmentis_node.Snapshots.Chunks.{
  ChunkRecord, create_chunks, split_files, split_file, close_chunk, add_rest,
}
use carmentis_node.Base.Cuts.{overwrite}
use carmentis_node.Snapshots.Copies.{
  copy_file_to_buffer, copy_buffer_to_file, copy_file_to_buffer-copy_buffer_to_file,
}
use carmentis_node.Snapshots.Places.{chunk_places, file_places, total}
use carmentis_node.Snapshots.Cover.{AreFull, create_chunks-cover}

-- A file of 5 bytes and a database dump of 2.
abbrev files : List (ℕ × ℕ)
files = (9, 5) ∷ (0, 2) ∷ []

abbrev piece : ℕ → ℕ → ℕ → ChunkRecord
piece file_identifier offset size = record {
  file_identifier = file_identifier;
  offset = offset;
  size = size;
}

create_chunks-files :
    create_chunks 4 files ≡ ok ((piece 9 0 4 ∷ []) ∷ (piece 9 4 1 ∷ piece 0 0 2 ∷ []) ∷ [])
unfolding create_chunks split_files split_file close_chunk add_rest
create_chunks-files = refl

create_chunks-cover_example :
    (full : List (List ChunkRecord)) × (rest : List (List ChunkRecord)) × (create_chunks 4 files
      ≡ ok (full ++ rest))
    × (chunk_places (full ++ rest) ≡ file_places files)
    × AreFull 4 full
    × ((rest ≡ [])
        ⊎ ((last : List ChunkRecord) × (rest ≡ last ∷ []) × (0 < total last) × (total last ≤ 4)))
create_chunks-cover_example = create_chunks-cover 4 files (omega arith)

-- Two bytes of a buffer, appended to a file of one.
copy_buffer_to_file-run :
    copy_buffer_to_file (some (1 ∷ [])) (5 ∷ 6 ∷ 7 ∷ []) 1 1 2 ≡ ok (1 ∷ 6 ∷ 7 ∷ [])
unfolding copy_buffer_to_file
copy_buffer_to_file-run = refl

copy_file_to_buffer-copy_buffer_to_file_example :
    copy_file_to_buffer (some (1 ∷ 6 ∷ 7 ∷ [])) (0 ∷ 0 ∷ 0 ∷ []) 0 1 2
    ≡ ok (overwrite (0 ∷ 0 ∷ 0 ∷ []) 0 (6 ∷ 7 ∷ []))
copy_file_to_buffer-copy_buffer_to_file_example =
    copy_file_to_buffer-copy_buffer_to_file (some (1 ∷ [])) (5 ∷ 6 ∷ 7 ∷ []) (1 ∷ 6 ∷ 7 ∷ [])
      (0 ∷ 0 ∷ 0 ∷ []) 1 1 0 2 copy_buffer_to_file-run (omega arith)
