-- ===== src/Snapshots/Places.antt =====
-- The bytes that a chunk record, a chunk and a list of chunks stand for.
use mathlib.Core.List.{append_assoc, append-nil}
use carmentis_node.Base.{
  ℕ, zero, suc, ◌+◌, ◌≡◌, refl, false, List, [], ◌∷◌, ◌++◌, arith, ◌==◌, ap, sym, ◌∙◌,
}
use carmentis_node.Snapshots.Chunks.{ChunkRecord, push_record}

-- The places in a file: `n` bytes from an offset on.
unfoldable pub places : ℕ → ℕ → ℕ → List (ℕ × ℕ)
places id offset zero = []
places id offset (suc n) = (id, offset) ∷ places id (offset + 1) n

-- All places in a list of files.
unfoldable pub file_places : List (ℕ × ℕ) → List (ℕ × ℕ)
file_places [] = []
file_places ((id, size) ∷ files) = places id 0 size ++ file_places files

unfoldable pub record_places : List ChunkRecord → List (ℕ × ℕ)
record_places [] = []
record_places (r ∷ rs) = places r.file_identifier r.offset r.size ++ record_places rs

unfoldable pub chunk_places : List (List ChunkRecord) → List (ℕ × ℕ)
chunk_places [] = []
chunk_places (c ∷ cs) = record_places c ++ chunk_places cs

-- The number of bytes of a chunk.
unfoldable pub total : List ChunkRecord → ℕ
total [] = 0
total (r ∷ rs) = r.size + total rs

pub places-append :
    (id offset a b : ℕ) → places id offset (a + b) ≡ places id offset a ++ places id (offset + a) b
unfolding places
places-append id offset zero b =
    let e : 0 + b ≡ b = omega arith in let f : offset + 0 ≡ offset = omega arith in rw (e, f)
places-append id offset (suc a) b =
    let e : suc a + b ≡ suc (a + b) = omega arith in
    let f : offset + suc a ≡ offset + 1 + a = omega arith in
    rw (e, f) (ap ((id, offset) ∷◌) (places-append id (offset + 1) a b))

pub record_places-append :
    (a b : List ChunkRecord) → record_places (a ++ b) ≡ record_places a ++ record_places b
unfolding record_places
record_places-append [] b = refl
record_places-append (r ∷ a) b =
    ap (λ l. places r.file_identifier r.offset r.size ++ l) (record_places-append a b)
    ∙ sym (
        append_assoc (places r.file_identifier r.offset r.size) (record_places a) (record_places b))

pub chunk_places-append :
    (a b : List (List ChunkRecord)) → chunk_places (a ++ b) ≡ chunk_places a ++ chunk_places b
unfolding chunk_places
chunk_places-append [] b = refl
chunk_places-append (c ∷ a) b =
    ap (λ l. record_places c ++ l) (chunk_places-append a b)
    ∙ sym (append_assoc (record_places c) (chunk_places a) (chunk_places b))

total-append : (a b : List ChunkRecord) → total (a ++ b) ≡ total a + total b
unfolding total
total-append [] b = omega arith
total-append (r ∷ a) b = omega (arith, total-append a b)

pub record_places-push :
    (c : List ChunkRecord) (id offset size : ℕ)
    → record_places (push_record c id offset size) ≡ record_places c ++ places id offset size
unfolding record_places places
record_places-push c id offset zero = sym (append-nil (record_places c))
record_places-push c id offset (suc size) =
    let r : ChunkRecord = record { file_identifier = id; offset = offset; size = suc size } in
    let nonzero : (suc size == 0) ≡ false = ground arith in
    rw nonzero (
      record_places-append c (r ∷ [])
      ∙ ap (λ l. record_places c ++ l) (append-nil (places id offset (suc size))))

pub record_places-empty : (c : List ChunkRecord) → total c ≡ 0 → record_places c ≡ []
unfolding record_places total places
record_places-empty [] h = refl
record_places-empty (r ∷ rs) h =
    let none : r.size ≡ 0 = omega arith in
    let rest = record_places-empty rs (omega arith) in cc (none, rest)

pub total-push :
    (c : List ChunkRecord) (id offset size : ℕ)
    → total (push_record c id offset size) ≡ total c + size
unfolding total
total-push c id offset zero = omega arith
total-push c id offset (suc size) =
    let r : ChunkRecord = record { file_identifier = id; offset = offset; size = suc size } in
    let nonzero : (suc size == 0) ≡ false = ground arith in
    rw nonzero (omega (arith, total-append c (r ∷ [])))
