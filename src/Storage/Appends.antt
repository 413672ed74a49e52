-- ===== src/Storage/Appends.antt =====
-- What is read back after transactions were written (Storage.ts).
use mathlib.Core.List.{append_assoc, append-nil}
use carmentis_node.Base.{
  inr, inl, Option-cases, bytes_eq, ℕ, zero, suc, ◌+◌, ◌≤◌, ◌<◌, ◌≡◌, refl, sym, ap, ◌∙◌, none,
  some, List, [], ◌∷◌, ◌++◌, Bytes, if◌then◌else◌, length, take, drop, arith, length-append,
  bytes_eq_iff,
}
use carmentis_node.Base.Cuts.{overwrite-end, take-append}
use carmentis_node.Base.Maps.{find, insert, find-insert}
use carmentis_node.Base.Effects.{done}
use carmentis_node.Storage.Files.{
  Disk, open_for_writing, write_all, write_transactions, read_stored,
}

-- The transactions one behind the other.
abbrev pub joined : List Bytes → Bytes
joined [] = []
joined (tx ∷ transactions) = tx ++ joined transactions

-- The content of a file; a file that is not there has none.
abbrev pub content_of : Disk → Bytes → Bytes
content_of disk path = elim (find path disk) [ some content ↦ content | none ↦ [] ]

pub write_all-joined :
    (transactions : List Bytes) (content : Bytes)
    → write_all transactions (length content) content ≡ content ++ joined transactions
unfolding write_all
write_all-joined [] content = sym (append-nil content)
write_all-joined (tx ∷ transactions) content = rw (overwrite-end content tx) (
    rw (sym (length-append content tx)) (
      write_all-joined transactions (content ++ tx)
      ∙ append_assoc content tx (joined transactions)))

-- A write that ends has put the transactions at the end of the file.
pub write_transactions-content :
    (path : Bytes) (expected : ℕ) (transactions : List Bytes) (disk disk' : Disk)
    → write_transactions path expected transactions disk ≡ done tt disk'
    → (expected ≤ length (content_of disk path))
      × ((other : Bytes)
          → find other disk' ≡ (
              if bytes_eq path other
              then some (content_of disk path ++ joined transactions)
              else find other disk))
unfolding write_transactions open_for_writing
write_transactions-content path expected transactions disk disk' e =
    let content = content_of disk path in
    let written = write_all transactions (length content) content in
    let appended = write_all-joined transactions content in
    elim (Option-cases (find path disk)) [
      | inl absent ↦ (
        ground (arith, e, absent),
        λ other. ground (
          arith,
          e,
          absent,
          appended,
          find-insert path other written (insert path [] disk),
          find-insert path other [] disk,
        ),
      )
      | inr (content', found) ↦ (
        ground (arith, e, found),
        λ other. ground (arith, e, found, appended, find-insert path other written disk),
      )
    ]

pub joined-append : (a b : List Bytes) → joined (a ++ b) ≡ joined a ++ joined b
joined-append [] b = refl
joined-append (tx ∷ a) b = rw (joined-append a b) (sym (append_assoc tx (joined a) (joined b)))

cut-inside :
    (xs ys : Bytes) (m n : ℕ) → m + n ≤ length xs → take n (drop m (xs ++ ys)) ≡ take n (drop m xs)
cut-inside [] ys m zero h = refl
cut-inside [] ys m (suc n) h = absurd (omega arith)
cut-inside (x ∷ xs) ys zero zero h = refl
cut-inside (x ∷ xs) ys zero (suc n) h = ap (x ∷◌) (cut-inside xs ys zero n (omega arith))
cut-inside (x ∷ xs) ys (suc m) n h = cut-inside xs ys m n (omega arith)

cut-between : (xs tx ys : Bytes) → take (length tx) (drop (length xs) (xs ++ (tx ++ ys))) ≡ tx
cut-between [] tx ys = take-append tx ys (length tx) refl
cut-between (x ∷ xs) tx ys = cut-between xs tx ys

-- Where the file is as long as expected, each transaction that was written is read back from the
-- expected size and the transactions before it on.
pub write_transactions-read_stored :
    (path : Bytes) (expected : ℕ) (before : List Bytes) (tx : Bytes) (after : List Bytes)
    (disk disk' : Disk)
    → write_transactions path expected (before ++ (tx ∷ after)) disk ≡ done tt disk'
    → length (content_of disk path) ≡ expected
    → read_stored disk' path (expected + length (joined before)) (length tx) ≡ some tx
unfolding read_stored
write_transactions-read_stored path expected before tx after disk disk' e as_expected =
    let content = content_of disk path in
    let (enough, files) =
      write_transactions-content path expected (before ++ (tx ∷ after)) disk disk' e in
    let place : length (content ++ joined before) ≡ expected + length (joined before) =
      omega (arith, as_expected, length-append content (joined before)) in
    let whole : content ++ joined (before ++ (tx ∷ after))
        ≡ (content ++ joined before) ++ (tx ++ joined after) =
      rw (joined-append before (tx ∷ after))
        (sym (append_assoc content (joined before) (tx ++ joined after))) in
    let found : find path disk' ≡ some ((content ++ joined before) ++ (tx ++ joined after)) =
      ground (arith, files path, whole, bytes_eq_iff path path) in
    let part : take (length tx) (
          drop (expected + length (joined before))
            ((content ++ joined before) ++ (tx ++ joined after)))
        ≡ tx =
      rw (sym place) (cut-between (content ++ joined before) tx (joined after)) in
    ground (arith, found, part)

-- What was read back from inside a file before a write is read back after it, too: also from the
-- place where the transactions were expected, when the file was longer than that.
pub write_transactions-kept :
    (path : Bytes) (expected : ℕ) (transactions : List Bytes) (disk disk' : Disk) (offset size : ℕ)
    → write_transactions path expected transactions disk ≡ done tt disk'
    → 0 < size
    → offset + size ≤ length (content_of disk path)
    → read_stored disk' path offset size ≡ read_stored disk path offset size
unfolding read_stored
write_transactions-kept path expected transactions disk disk' offset size e positive inside =
    let content = content_of disk path in
    let (enough, files) = write_transactions-content path expected transactions disk disk' e in
    let same = cut-inside content (joined transactions) offset size inside in
    elim (Option-cases (find path disk)) [
      | inl absent ↦ absurd (ground (arith, absent))
      | inr (content', found) ↦ ground (arith, found, files path, bytes_eq_iff path path, same)
    ]
