-- ===== src/Challenge/Examples.antt =====
-- Runs of the storage challenge, and its theorems at concrete inputs.
use mathlib.Core.Path.{subst}
use mathlib.Core.Option.{none-ne-some}
use carmentis_node.Base.{
  ℕ, zero, suc, ◌≡◌, refl, true, Option, some, none, List, [], ◌∷◌, Bytes, arith, if◌then◌else◌,
  ◌==◌, ok, thrown, get_elem?, get_or, replicate,
}
use carmentis_node.Base.Maps.{Map, find}
use carmentis_node.Base.Cuts.{overwrite}
use carmentis_node.Database.Level.{Level, LevelDb, Op, is_table}
use carmentis_node.Database.Level
use carmentis_node.Challenge.File.{
  ChallengeFile, create, open_file, read_or_fail, read_loop, handle_read,
}
use carmentis_node.Challenge.Reads.{circular, read_or_fail-circular}
use carmentis_node.Challenge.Manager.{
  Surroundings, Entry, process_challenge, decode_entries, sort_entries,
}
use carmentis_node.Challenge.Agreement.{Agree, process_challenge-agrees}

-- Five bytes, of which three are committed.
abbrev content : Bytes
content = 1 ∷ 2 ∷ 3 ∷ 9 ∷ 9 ∷ []

abbrev file : ChallengeFile
file = record { on_disk = some content; handle = some content; committed_size = 3 }

open_file-file : open_file (create (some content) 3) ≡ ok file
unfolding open_file
open_file-file = refl

open_file-small : open_file (create (some content) 6) ≡ thrown
unfolding open_file
open_file-small = refl

read_or_fail-file :
    read_or_fail file (0 ∷ 0 ∷ 0 ∷ 0 ∷ 0 ∷ 0 ∷ []) 1 4 1 ≡ ok (0 ∷ 2 ∷ 3 ∷ 1 ∷ 2 ∷ 0 ∷ [])
unfolding read_or_fail read_loop handle_read
read_or_fail-file = refl

read_or_fail-circular_example :
    read_or_fail file (replicate 6 0) 1 4 1
    ≡ ok (overwrite (replicate 6 0) 1 (circular content 3 4 1))
read_or_fail-circular_example =
    read_or_fail-circular content 3 file (replicate 6 0) 1 4 1 refl refl (omega arith) (omega arith)
      (omega arith)

-- A database with the same entries in each table, which cannot be written.
abbrev fixed : Level
fixed = record {
  Store = Map Bytes;
  get = λ s t k. find k s;
  entries = λ s t. s;
  write = λ s ops. none;
  get-entries = λ s t k. refl;
  get-write = λ s s' ops t k e. absurd (none-ne-some s' e);
}

abbrev data_files : Map Bytes
data_files = (0 ∷ 0 ∷ 0 ∷ 5 ∷ [], 3 ∷ []) ∷ []

abbrev db : LevelDb fixed
db = record { store = data_files; initialized = true }

abbrev disk : ℕ → Option Bytes
disk id = if id == 5 then some content else none

-- Another disk, with other bytes after the committed ones.
abbrev longer : ℕ → Option Bytes
longer id = if id == 5 then some (1 ∷ 2 ∷ 3 ∷ []) else none

abbrev node : Surroundings
node = record {
  sha256 = λ b. replicate 32 (get_or b 0 0);
  null_hash = replicate 32 0;
  decode_file_size = λ b. ok (get_or b 0 0);
  on_disk = disk;
}

abbrev entries : List Entry
entries = (5, 3) ∷ []

one_file : Agree disk longer (5, 3)
one_file = record {
  left = content;
  right = 1 ∷ 2 ∷ 3 ∷ [];
  on_first = refl;
  on_second = refl;
  positive = omega arith;
  left_size = omega arith;
  right_size = omega arith;
  same = refl;
}

all_files :
    (rank : ℕ) (e : Entry) → get_elem? (sort_entries entries) rank ≡ some e → Agree disk longer e
unfolding sort_entries
all_files zero e h = subst (Agree disk longer) (cc h) one_file
all_files (suc rank) e h = cc

process_challenge-agrees_example :
    (result : Bytes) × (process_challenge node fixed db (7 ∷ []) ≡ ok result)
    × (process_challenge (record node { on_disk = longer }) fixed db (7 ∷ []) ≡ ok result)
unfolding Level.get_full_table is_table decode_entries
process_challenge-agrees_example =
    process_challenge-agrees node longer fixed db (7 ∷ []) data_files entries refl refl all_files
