-- ===== src/Challenge/Reads.antt =====
-- `readOrFail`: what it reads is the committed part of the file, taken round.
use carmentis_node.Base.{
  ℕ, zero, suc, ◌+◌, ◌-◌, ◌≤◌, ◌<◌, ◌≡◌, refl, ◌⊎◌, inl, inr, false, some, [], ◌∷◌, ◌++◌, Bytes,
  arith, ltb, ◌==◌, if◌then◌else◌, ok, length, take, drop, get_or, ap, sym, ◌∙◌,
}
use mathlib.Core.Path.{subst}
use carmentis_node.Base.Cuts.{
  overwrite, length-overwrite, overwrite-nil, overwrite-overwrite, length-take, length-drop,
  take-drop-suc,
}
use carmentis_node.Challenge.File.{ChallengeFile, handle_read, read_loop, read_or_fail, min_of}

module _ (content : Bytes) (committed_size : ℕ) where
  abbrev wrap : ℕ → ℕ
  wrap offset = if offset == committed_size then 0 else offset

  -- The bytes from an offset on, going round at the committed size.
  pub circular : ℕ → ℕ → Bytes
  circular zero offset = []
  circular (suc n) offset = get_or content offset 0 ∷ circular n (wrap (offset + 1))

  length-circular : (n offset : ℕ) → length (circular n offset) ≡ n
  unfolding circular
  length-circular zero offset = refl
  length-circular (suc n) offset = ap suc (length-circular n (wrap (offset + 1)))

  -- Going round reads a run of the file first.
  circular-run :
      (k n offset : ℕ)
      → offset < committed_size
      → offset + k ≤ committed_size
      → committed_size ≤ length content
      → k ≤ n
      → circular n offset ≡ take k (drop offset content) ++ circular (n - k) (wrap (offset + k))
  unfolding circular
  circular-run zero n offset lt le size h =
      let e : n - 0 ≡ n = omega arith in
      let f : wrap (offset + 0) ≡ offset = ground arith in rw (e, f)
  circular-run (suc k) zero offset lt le size h = absurd (omega arith)
  circular-run (suc zero) (suc n) offset lt le size h =
      let e : suc n - 1 ≡ n = omega arith in rw (e, take-drop-suc offset 0 content 0 (omega arith))
  circular-run (suc (suc k)) (suc n) offset lt le size h =
      let e : suc n - suc (suc k) ≡ n - suc k = omega arith in
      let f : offset + suc (suc k) ≡ offset + 1 + suc k = omega arith in
      let g : wrap (offset + 1) ≡ offset + 1 = ground arith in
      rw (e, f, g)
        (rw (take-drop-suc offset (suc k) content 0 (omega arith)) (
          ap (get_or content offset 0 ∷◌)
            (circular-run (suc k) n (offset + 1) (omega arith) (omega arith) size (omega arith))))

  pub handle_read-run :
      (buffer : Bytes) (buffer_offset k offset : ℕ)
      → length (take k (drop offset content)) ≡ k
      → buffer_offset + k ≤ length buffer
      → handle_read content buffer buffer_offset k offset
        ≡ ok (overwrite buffer buffer_offset (take k (drop offset content)), k)
  unfolding handle_read
  handle_read-run buffer bo k offset got room =
      let fits : ltb (length buffer) (bo + k) ≡ false = ground arith in rw fits (rw got)

  -- After a round the reading goes on at the start of the file, if there is more to read.
  circular-rest :
      (rest offset : ℕ)
      → (rest ≡ 0) ⊎ (offset ≡ committed_size)
      → circular rest (wrap offset) ≡ circular rest 0
  unfolding circular
  circular-rest rest offset (inl e) = rw e
  circular-rest rest offset (inr e) = ap (circular rest) (ground arith)

  -- A round of the loop that reads to the committed size or to the end of what is asked.
  read_loop-suc :
      (fuel n : ℕ) (buffer : Bytes) (buffer_offset offset : ℕ)
      → offset < committed_size
      → committed_size ≤ length content
      → buffer_offset + suc n ≤ length buffer
      → (k : ℕ) × (0 < k)
        × (k ≤ suc n)
        × (offset + k ≤ committed_size)
        × ((suc n - k ≡ 0) ⊎ (offset + k ≡ committed_size))
        × (read_loop content committed_size (suc fuel) buffer buffer_offset (suc n) offset
            ≡ read_loop content committed_size fuel
                (overwrite buffer buffer_offset (take k (drop offset content)))
                (buffer_offset + k)
                (suc n - k)
                0)
  unfolding read_loop handle_read
  read_loop-suc fuel n buffer bo offset lt size room =
      let k = min_of (committed_size - offset) (suc n) in
      let got : length (take k (drop offset content)) ≡ k =
        length-take k (drop offset content) (ground (arith, length-drop offset content)) in
      let nonzero : (suc n == 0) ≡ false = ground arith in
      let inside : ltb committed_size offset ≡ false = ground arith in
      let same : ltb k k ≡ false = ground arith in
      let run = handle_read-run buffer bo k offset got (ground arith) in
      (k, ground arith, ground arith, ground arith, ground arith, ground (arith, run))

  read_loop-circular :
      (fuel n : ℕ) (buffer : Bytes) (buffer_offset offset : ℕ)
      → n < fuel
      → offset < committed_size
      → committed_size ≤ length content
      → buffer_offset + n ≤ length buffer
      → read_loop content committed_size fuel buffer buffer_offset n offset
        ≡ ok (overwrite buffer buffer_offset (circular n offset))
  unfolding read_loop circular
  read_loop-circular zero n buffer bo offset f lt size room = absurd (omega arith)
  read_loop-circular (suc fuel) zero buffer bo offset f lt size room =
      ap ok (sym (overwrite-nil buffer bo))
  read_loop-circular (suc fuel) (suc n) buffer bo offset f lt size room =
      let (k, some_read, within, run_in, done, round) =
        read_loop-suc fuel n buffer bo offset lt size room in
      let part = take k (drop offset content) in
      let part_length : length part ≡ k =
        length-take k (drop offset content) (omega (arith, length-drop offset content)) in
      let same_length = length-overwrite buffer bo part (omega (arith, part_length)) in
      let after =
        read_loop-circular fuel (suc n - k) (overwrite buffer bo part) (bo + k) 0 (omega arith)
          (omega arith) size (omega (arith, same_length)) in
      let rest = circular (suc n - k) 0 in
      let rest_length = length-circular (suc n - k) 0 in
      let joined : overwrite (overwrite buffer bo part) (bo + k) rest
          ≡ overwrite buffer bo (part ++ rest) =
        subst
          (λ m.
            overwrite (overwrite buffer bo part) (bo + m) rest ≡ overwrite buffer bo (part ++ rest))
          part_length
          (overwrite-overwrite buffer bo part rest (omega (arith, part_length, rest_length))) in
      let whole : circular (suc n) offset ≡ part ++ rest =
        circular-run k (suc n) offset lt run_in size within
        ∙ ap (λ l. part ++ l) (circular-rest (suc n - k) (offset + k) done) in
      round ∙ after ∙ ap ok (joined ∙ ap (overwrite buffer bo) (sym whole))

  -- On an open file with the committed size at hand, `readOrFail` from an offset below it succeeds
  -- where the part fits in the buffer: the part holds the committed bytes from the offset on, read
  -- round, and the rest of the buffer is as before.
  pub read_or_fail-circular :
      (f : ChallengeFile) (buffer : Bytes) (buffer_offset n offset : ℕ)
      → f.handle ≡ some content
      → f.committed_size ≡ committed_size
      → offset < committed_size
      → committed_size ≤ length content
      → buffer_offset + n ≤ length buffer
      → read_or_fail f buffer buffer_offset n offset
        ≡ ok (overwrite buffer buffer_offset (circular n offset))
  unfolding read_or_fail
  read_or_fail-circular f buffer bo n offset opened committed lt size room =
      rw (opened, committed)
        (read_loop-circular (n + 2) n buffer bo offset (omega arith) lt size room)

get_or-take : (xs : Bytes) (n i d : ℕ) → i < n → get_or (take n xs) i d ≡ get_or xs i d
get_or-take [] zero i d h = refl
get_or-take [] (suc n) i d h = refl
get_or-take (x ∷ xs) zero i d h = absurd (omega arith)
get_or-take (x ∷ xs) (suc n) zero d h = refl
get_or-take (x ∷ xs) (suc n) (suc i) d h = get_or-take xs n i d (omega arith)

-- What is read depends on the committed bytes alone.
pub circular_congr :
    (a b : Bytes) (size n offset : ℕ)
    → offset < size
    → take size a ≡ take size b
    → circular a size n offset ≡ circular b size n offset
unfolding circular
circular_congr a b size zero offset h e = refl
circular_congr a b size (suc n) offset h e =
    let first : get_or a offset 0 ≡ get_or b offset 0 =
      sym (get_or-take a size offset 0 h)
      ∙ ap (λ l. get_or l offset 0) e
      ∙ get_or-take b size offset 0 h in
    let inside : wrap a size (offset + 1) < size = ground arith in
    cc (first, circular_congr a b size n (wrap a size (offset + 1)) inside e)

pub length-read :
    (content buffer : Bytes) (size buffer_offset n offset : ℕ)
    → buffer_offset + n ≤ length buffer
    → length (overwrite buffer buffer_offset (circular content size n offset)) ≡ length buffer
length-read content buffer size bo n offset room =
    length-overwrite buffer bo (circular content size n offset)
      (omega (arith, length-circular content size n offset))
