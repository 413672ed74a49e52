-- ===== src/Snapshots/Copies.antt =====
-- Copies between a data file and the buffer of a chunk (SnapshotDataCopyManager.ts).
use native.Mathlib.Nat.{add-zero}
use mathlib.Core.List.{append-nil}
use carmentis_node.Base.{
  ℕ, ◌+◌, ◌≤◌, ◌≡◌, false, not, Option, none, some, [], ◌++◌, Bytes, arith, ltb, ◌==◌,
  if◌then◌else◌, Result, ok, thrown, ◌>>=◌, ◌>>◌, throw_if, length, take, drop, ap, sym, ◌∙◌,
}
use carmentis_node.Base.Cuts.{overwrite, length-take, length-drop, drop-append, take-append}
use carmentis_node.Challenge.File.{handle_read}
use carmentis_node.Challenge.Reads.{handle_read-run}

-- `copyFileToBuffer`: the buffer after it.
unfoldable pub copy_file_to_buffer : Option Bytes → Bytes → ℕ → ℕ → ℕ → Result Bytes
copy_file_to_buffer file buffer buffer_offset file_offset size = elim file [
  | none ↦ thrown
  | some content ↦ do
    (buffer', bytes_read) ← handle_read content buffer buffer_offset size file_offset
    throw_if (ltb bytes_read size)
    ok buffer'
]

-- What `open` with 'w+' or 'a+' finds in the file.
abbrev pub open_to_write : Option Bytes → ℕ → Bytes
open_to_write none file_offset = []
open_to_write (some content) file_offset = if file_offset == 0 then [] else content

-- `copyBufferToFile`: the content of the file after it. `handle.write` throws if the part is not in
-- the buffer.
unfoldable pub copy_buffer_to_file : Option Bytes → Bytes → ℕ → ℕ → ℕ → Result Bytes
copy_buffer_to_file file buffer buffer_offset file_offset size = do
  throw_if (not (length (open_to_write file file_offset) == file_offset))
  throw_if (ltb (length buffer) (buffer_offset + size))
  ok (open_to_write file file_offset ++ take size (drop buffer_offset buffer))

-- A copy to a file does not throw only where it goes on at the end of the file, with a part that is
-- in the buffer.
copy_buffer_to_file-inv :
    (file : Option Bytes) (buffer content : Bytes) (buffer_offset file_offset size : ℕ)
    → copy_buffer_to_file file buffer buffer_offset file_offset size ≡ ok content
    → (length (open_to_write file file_offset) ≡ file_offset)
      × (buffer_offset + size ≤ length buffer)
      × (open_to_write file file_offset ++ take size (drop buffer_offset buffer) ≡ content)
unfolding copy_buffer_to_file
copy_buffer_to_file-inv file buffer content bo fo size e = ground (arith, e)

-- A part of a buffer that was copied to a file without an error is read back by a copy from the file
-- at the same offset, into any buffer with room for it; the rest of that buffer stays as it is.
pub copy_file_to_buffer-copy_buffer_to_file :
    (file : Option Bytes) (buffer content target : Bytes)
    (buffer_offset file_offset target_offset size : ℕ)
    → copy_buffer_to_file file buffer buffer_offset file_offset size ≡ ok content
    → target_offset + size ≤ length target
    → copy_file_to_buffer (some content) target target_offset file_offset size
      ≡ ok (overwrite target target_offset (take size (drop buffer_offset buffer)))
unfolding copy_file_to_buffer
copy_file_to_buffer-copy_buffer_to_file file buffer content target bo fo to size e room =
    let (end, inside, left) = copy_buffer_to_file-inv file buffer content bo fo size e in
    let before = open_to_write file fo in
    let part = take size (drop bo buffer) in
    let part_length : length part ≡ size =
      length-take size (drop bo buffer) (omega (arith, length-drop bo buffer)) in
    let found : drop fo content ≡ part =
      ap (drop fo) (sym left)
      ∙ ap (λ n. drop n (before ++ part)) (sym (add-zero fo))
      ∙ drop-append before part fo 0 end in
    let same : take size (drop fo content) ≡ part =
      ap (take size) found ∙ rw (append-nil part) at (take-append part [] size part_length) in
    let run = handle_read-run content 0 target to size fo (ap length same ∙ part_length) room in
    let all : ltb size size ≡ false = ground arith in
    rw run (rw all (ap (λ l. ok (overwrite target to l)) same))
