-- ===== src/Storage/Files.antt =====
-- Reads and writes of the files of microblocks (Storage.ts).
use carmentis_node.Base.{
  ℕ, ◌+◌, Option, none, some, List, [], ◌∷◌, Bytes, ltb, if◌then◌else◌, length, take, drop,
}
use carmentis_node.Base.Cuts.{overwrite}
use carmentis_node.Base.Maps.{Map, find, insert}
use carmentis_node.Base.Effects.{done, Action, throw_when, modify, ◌>>=◌, ◌>>◌}

-- The files, by their paths.
abbrev pub Disk : Type 0
Disk = Map Bytes

-- `MicroblockStorage`, an entry of the table of that name.
pub record MicroblockStorage : Type 0 where
  pub file_identifier : ℕ
  pub offset : ℕ
  pub size : ℕ

-- Opening for writing: a file that is not there is made, and is empty.
unfoldable pub open_for_writing : Bytes → Action Disk Bytes
open_for_writing path disk = elim (find path disk) [
  | some content ↦ done content disk
  | none ↦ done [] (insert path [] disk)
]

-- The loop over the transactions, from the position where the next one is written.
unfoldable pub write_all : List Bytes → ℕ → Bytes → Bytes
write_all [] position content = content
write_all (tx ∷ transactions) position content =
    write_all transactions (position + length tx) (overwrite content position tx)

-- `writeTransactions`
unfoldable pub write_transactions : Bytes → ℕ → List Bytes → Action Disk (Unit {0})
write_transactions path expected_file_size_before_writing transactions = do
  content ← open_for_writing path
  let file_size = length content
  throw_when (ltb file_size expected_file_size_before_writing)
  modify (insert path (write_all transactions file_size content))

-- `handle.read` of `size` bytes at `offset`, and the test of what was read
abbrev pub read_part : Bytes → ℕ → ℕ → Option Bytes
read_part content offset size =
    let part = take size (drop offset content) in if ltb (length part) size then none else some part

-- The part of `readMicroblock` that reads the file; an error is caught.
unfoldable pub read_stored : Disk → Bytes → ℕ → ℕ → Option Bytes
read_stored disk path offset size = elim (find path disk) [
  | none ↦ none
  | some content ↦ read_part content offset size
]
