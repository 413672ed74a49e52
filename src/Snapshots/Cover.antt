-- ===== src/Snapshots/Cover.antt =====
-- The chunks of a snapshot hold every byte of every file once, in order, and are full but for the
-- last.
use mathlib.Core.List.{append_assoc, append-nil}
use carmentis_node.Base.{
  ℕ, zero, suc, ◌+◌, ◌-◌, ◌≤◌, ◌<◌, ◌≡◌, refl, ◌⊎◌, inl, inr, List, [], ◌∷◌, ◌++◌, arith, ltb, ◌==◌,
  ok, ap, sym, ◌∙◌, Bool-cases,
}
use carmentis_node.Snapshots.Chunks.{
  ChunkRecord, Progress, start, push_record, close_chunk, add_rest, split_file, split_files,
  create_chunks,
}
use carmentis_node.Snapshots.Places.{
  places, file_places, record_places, chunk_places, total, places-append, chunk_places-append,
  record_places-push, total-push, record_places-empty,
}

module _ (chunk_size : ℕ) where
  -- Every chunk has the chunk size.
  abbrev pub AreFull : List (List ChunkRecord) → Type 0
  AreFull [] = Unit
  AreFull (c ∷ cs) = (total c ≡ chunk_size) × AreFull cs

  append-AreFull :
      (cs : List (List ChunkRecord)) (c : List ChunkRecord)
      → AreFull cs
      → total c ≡ chunk_size
      → AreFull (cs ++ (c ∷ []))
  append-AreFull [] c h e = (e, tt)
  append-AreFull (d ∷ cs) c h e = (h.0, append-AreFull cs c h.1 e)

  -- What is there so far.
  abbrev pub so_far : Progress → List (ℕ × ℕ)
  so_far s = chunk_places s.chunks ++ record_places s.current

  -- The chunks closed so far are full, and the current one is measured and fits.
  pub record IsSound (s : Progress) : Type 0 where
    pub full : AreFull s.chunks
    pub measured : total s.current ≡ s.current_size
    pub fits : s.current_size ≤ chunk_size

  close_chunk-IsSound :
      (s : Progress) (id offset : ℕ) → IsSound s → IsSound (close_chunk chunk_size s id offset)
  unfolding close_chunk total
  close_chunk-IsSound s id offset h =
      let left = chunk_size - s.current_size in
      let closed = push_record s.current id offset left in
      record {
        full =
            append-AreFull s.chunks closed h.full
              (omega (arith, total-push s.current id offset left, h.measured, h.fits));
        measured = refl;
        fits = omega arith;
      }

  so_far-close_chunk :
      (s : Progress) (id offset : ℕ)
      → so_far (close_chunk chunk_size s id offset)
        ≡ so_far s ++ places id offset (chunk_size - s.current_size)
  unfolding close_chunk chunk_places record_places
  so_far-close_chunk s id offset =
      let left = chunk_size - s.current_size in
      let closed = push_record s.current id offset left in
      append-nil (chunk_places (s.chunks ++ (closed ∷ [])))
      ∙ chunk_places-append s.chunks (closed ∷ [])
      ∙ ap (λ l. chunk_places s.chunks ++ l)
          (append-nil (record_places closed) ∙ record_places-push s.current id offset left)
      ∙ sym (append_assoc (chunk_places s.chunks) (record_places s.current) (places id offset left))

  add_rest-IsSound :
      (s : Progress) (id offset remaining : ℕ)
      → IsSound s
      → s.current_size + remaining ≤ chunk_size
      → IsSound (add_rest chunk_size s id offset remaining)
  unfolding add_rest
  add_rest-IsSound s id offset remaining h le = record {
    full = h.full;
    measured = total-push s.current id offset remaining ∙ ap (λ n. n + remaining) h.measured;
    fits = le;
  }

  so_far-add_rest :
      (s : Progress) (id offset remaining : ℕ)
      → so_far (add_rest chunk_size s id offset remaining) ≡ so_far s ++ places id offset remaining
  unfolding add_rest
  so_far-add_rest s id offset remaining =
      ap (λ l. chunk_places s.chunks ++ l) (record_places-push s.current id offset remaining)
      ∙ sym (
          append_assoc (chunk_places s.chunks) (record_places s.current)
            (places id offset remaining))

  -- The inner loop ends, keeps the chunks sound, and adds the places of the file from an offset on.
  split_file-ends :
      (fuel : ℕ) (s : Progress) (id offset remaining : ℕ)
      → 0 < chunk_size
      → IsSound s
      → ((s.current_size < chunk_size) × (remaining < fuel)) ⊎ (remaining + 1 < fuel)
      → (s' : Progress) × (split_file chunk_size fuel s id offset remaining ≡ ok s')
        × IsSound s'
        × (so_far s' ≡ so_far s ++ places id offset remaining)
  unfolding split_file close_chunk
  split_file-ends zero s id offset remaining positive sound enough = absurd (omega arith)
  split_file-ends (suc fuel) s id offset remaining positive sound enough =
      let left = chunk_size - s.current_size in
      elim (Bool-cases (ltb chunk_size (s.current_size + remaining))) [
        | inl over ↦
            let over' : chunk_size < s.current_size + remaining = ground arith in
            let fits = sound.fits in
            let shorter : remaining - left < fuel = elim enough [
              | inl (room, fuel_left) ↦ omega arith
              | inr fuel_left ↦ omega arith
            ] in
            let (s', run, sound', covers) =
              split_file-ends fuel (close_chunk chunk_size s id offset) id (offset + left)
                (remaining - left) positive (close_chunk-IsSound s id offset sound)
                (inl (positive, shorter)) in
            let split : left + (remaining - left) ≡ remaining = omega arith in
            (
              s',
              ground (arith, over, run),
              sound',
              covers
                  ∙ ap (λ l. l ++ places id (offset + left) (remaining - left))
                      (so_far-close_chunk s id offset)
                  ∙ append_assoc (so_far s) (places id offset left)
                      (places id (offset + left) (remaining - left))
                  ∙ ap (λ l. so_far s ++ l)
                      (sym (places-append id offset left (remaining - left))
                        ∙ ap (places id offset) split),
            )
        | inr within ↦ (
          add_rest chunk_size s id offset remaining,
          ground (arith, within),
          add_rest-IsSound s id offset remaining sound (ground arith),
          so_far-add_rest s id offset remaining,
        )
      ]

  split_files-ends :
      (files : List (ℕ × ℕ)) (s : Progress)
      → 0 < chunk_size
      → IsSound s
      → (s' : Progress) × (split_files chunk_size files s ≡ ok s')
        × IsSound s'
        × (so_far s' ≡ so_far s ++ file_places files)
  unfolding split_files file_places
  split_files-ends [] s positive sound = (s, refl, sound, sym (append-nil (so_far s)))
  split_files-ends ((id, size) ∷ files) s positive sound =
      let (s1, run, sound1, covers) =
        split_file-ends (size + 2) s id 0 size positive sound (inr (omega arith)) in
      let (s2, rest, sound2, covers') = split_files-ends files s1 positive sound1 in
      (
        s2,
        rw run rest,
        sound2,
        covers'
            ∙ ap (λ l. l ++ file_places files) covers
            ∙ append_assoc (so_far s) (places id 0 size) (file_places files),
      )

  -- With a positive chunk size the list of chunks is made without an error. Read in order, its
  -- records are all bytes of all files, each once and in order; every chunk has
  -- exactly the chunk size, but for the last, which may be shorter and has at least one byte.
  pub create_chunks-cover :
      (files : List (ℕ × ℕ))
      → 0 < chunk_size
      → (full : List (List ChunkRecord)) × (rest : List (List ChunkRecord)) × (create_chunks
            chunk_size files
          ≡ ok (full ++ rest))
        × (chunk_places (full ++ rest) ≡ file_places files)
        × AreFull full
        × ((rest ≡ [])
            ⊎ ((last : List ChunkRecord) × (rest ≡ last ∷ [])
                × (0 < total last)
                × (total last ≤ chunk_size)))
  unfolding create_chunks chunk_places record_places total
  create_chunks-cover files positive =
      let sound0 : IsSound start = record { full = tt; measured = refl; fits = omega arith } in
      let (s, run, sound, covers) = split_files-ends files start positive sound0 in
      elim (Bool-cases (s.current_size == 0)) [
        | inl empty ↦ (
          s.chunks,
          [],
          rw run (rw empty (ap ok (sym (append-nil s.chunks)))),
          ap chunk_places (append-nil s.chunks)
              ∙ sym (append-nil (chunk_places s.chunks))
              ∙ ap (λ l. chunk_places s.chunks ++ l)
                  (sym (record_places-empty s.current (ground (arith, sound.measured))))
              ∙ covers,
          sound.full,
          inl refl,
        )
        | inr more ↦ (
          s.chunks,
          s.current ∷ [],
          rw run (rw more),
          chunk_places-append s.chunks (s.current ∷ [])
              ∙ ap (λ l. chunk_places s.chunks ++ l) (append-nil (record_places s.current))
              ∙ covers,
          sound.full,
          inr (
            s.current,
            refl,
            ground (arith, sound.measured),
            omega (arith, sound.measured, sound.fits),
          ),
        )
      ]
