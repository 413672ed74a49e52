-- ===== src/Base/Cuts.antt =====
-- Lists cut in two, and parts of a list overwritten.
use Prim.Native.Nat.{ℕ, zero, suc, ◌+◌, ◌-◌, ◌≤◌, ◌<◌}
use mathlib.Core.Path.{◌≡◌, refl, ap, ap₂, sym, ◌∙◌}
use mathlib.Core.List.{List, [], ◌∷◌, ◌++◌, append_assoc, append-nil}
use native.Mathlib.Omega.{arith}
use carmentis_node.Base.Lists.{length, take, drop, get_or, length-append}

module _ {ℓ} {A : Type ℓ} where
  pub take-append : (xs ys : List A) (n : ℕ) → length xs ≡ n → take n (xs ++ ys) ≡ xs
  take-append [] ys n h = ground arith
  take-append (x ∷ xs) ys zero h = absurd (omega arith)
  take-append (x ∷ xs) ys (suc n) h = ap (x ∷◌) (take-append xs ys n (omega arith))

  pub drop-append : (xs ys : List A) (n k : ℕ) → length xs ≡ n → drop (n + k) (xs ++ ys) ≡ drop k ys
  drop-append [] ys zero k h = let e : 0 + k ≡ k = omega arith in rw e
  drop-append [] ys (suc n) k h = absurd (omega arith)
  drop-append (x ∷ xs) ys zero k h = absurd (omega arith)
  drop-append (x ∷ xs) ys (suc n) k h =
      let e : suc n + k ≡ suc (n + k) = omega arith in rw e (drop-append xs ys n k (omega arith))

  -- Two lists that agree, cut at the same place, agree on both sides.
  pub append_cancel : (a b c d : List A) → length a ≡ length c → a ++ b ≡ c ++ d → (a ≡ c) × (b ≡ d)
  append_cancel [] b [] d h e = (refl, e)
  append_cancel [] b (y ∷ c) d h e = absurd (omega arith)
  append_cancel (x ∷ a) b [] d h e = absurd (omega arith)
  append_cancel (x ∷ a) b (y ∷ c) d h e =
      let rest = append_cancel a b c d (omega arith) (cc e) in (ap₂ ◌∷◌ (cc e) rest.0, rest.1)

  pub length-take : (n : ℕ) (xs : List A) → n ≤ length xs → length (take n xs) ≡ n
  length-take zero xs h = refl
  length-take (suc n) [] h = absurd (omega arith)
  length-take (suc n) (x ∷ xs) h = ap suc (length-take n xs (omega arith))

  pub length-drop : (n : ℕ) (xs : List A) → length (drop n xs) ≡ length xs - n
  length-drop zero xs = omega arith
  length-drop (suc n) [] = omega arith
  length-drop (suc n) (x ∷ xs) = omega (arith, length-drop n xs)

  pub take_append_drop : (n : ℕ) (xs : List A) → take n xs ++ drop n xs ≡ xs
  take_append_drop zero xs = refl
  take_append_drop (suc n) [] = refl
  take_append_drop (suc n) (x ∷ xs) = ap (x ∷◌) (take_append_drop n xs)

  drop-nil : (n : ℕ) → drop {A = A} n [] ≡ []
  drop-nil zero = refl
  drop-nil (suc n) = refl

  pub drop-drop : (n k : ℕ) (xs : List A) → drop k (drop n xs) ≡ drop (n + k) xs
  drop-drop zero k xs = let e : 0 + k ≡ k = omega arith in rw e
  drop-drop (suc n) k [] = drop-nil k ∙ sym (drop-nil (suc n + k))
  drop-drop (suc n) k (x ∷ xs) =
      let e : suc n + k ≡ suc (n + k) = omega arith in rw e (drop-drop n k xs)

  pub take-drop-suc :
      (n k : ℕ) (xs : List A) (d : A)
      → n < length xs
      → take (suc k) (drop n xs) ≡ get_or xs n d ∷ take k (drop (n + 1) xs)
  take-drop-suc n k [] d h = absurd (omega arith)
  take-drop-suc zero k (x ∷ xs) d h = refl
  take-drop-suc (suc n) k (x ∷ xs) d h =
      let e : suc n + 1 ≡ suc (n + 1) = omega arith in rw e (take-drop-suc n k xs d (omega arith))

  -- The elements from a place on replaced by those of another list.
  abbrev pub overwrite : List A → ℕ → List A → List A
  overwrite xs n part = take n xs ++ (part ++ drop (n + length part) xs)

  pub length-overwrite :
      (xs : List A) (n : ℕ) (part : List A)
      → n + length part ≤ length xs
      → length (overwrite xs n part) ≡ length xs
  length-overwrite xs n part h = omega (
    arith,
    length-append (take n xs) (part ++ drop (n + length part) xs),
    length-append part (drop (n + length part) xs),
    length-take n xs (omega arith),
    length-drop (n + length part) xs,
  )

  pub overwrite-nil : (xs : List A) (n : ℕ) → overwrite xs n [] ≡ xs
  overwrite-nil xs n = let e : n + 0 ≡ n = omega arith in rw e (take_append_drop n xs)

  take-whole : (xs : List A) → take (length xs) xs ≡ xs
  take-whole [] = refl
  take-whole (x ∷ xs) = ap (x ∷◌) (take-whole xs)

  drop-whole : (xs : List A) (k : ℕ) → drop (length xs + k) xs ≡ []
  drop-whole [] k = drop-nil (0 + k)
  drop-whole (x ∷ xs) k =
      let e : suc (length xs) + k ≡ suc (length xs + k) = omega arith in rw e (drop-whole xs k)

  -- A write at the end of a list appends.
  pub overwrite-end : (xs part : List A) → overwrite xs (length xs) part ≡ xs ++ part
  overwrite-end xs part =
      rw (take-whole xs) (rw (drop-whole xs (length part)) (ap (xs ++◌) (append-nil part)))

  -- Two writes, the second behind the first, are one.
  pub overwrite-overwrite :
      (xs : List A) (n : ℕ) (p q : List A)
      → n + length p + length q ≤ length xs
      → overwrite (overwrite xs n p) (n + length p) q ≡ overwrite xs n (p ++ q)
  overwrite-overwrite xs n p q h =
      let before = take n xs in
      let after = drop (n + length p) xs in
      let cut : length (before ++ p) ≡ n + length p =
        omega (arith, length-append before p, length-take n xs (omega arith)) in
      let whole : before ++ (p ++ after) ≡ (before ++ p) ++ after =
        sym (append_assoc before p after) in
      let left : take (n + length p) (before ++ (p ++ after)) ≡ before ++ p =
        rw whole (take-append (before ++ p) after (n + length p) cut) in
      let right : drop (n + length p + length q) (before ++ (p ++ after))
          ≡ drop (n + length (p ++ q)) xs =
        rw whole (
          drop-append (before ++ p) after (n + length p) (length q) cut
          ∙ drop-drop (n + length p) (length q) xs
          ∙ ap (λ k. drop k xs) (omega (arith, length-append p q))) in
      let rest = drop (n + length (p ++ q)) xs in
      rw left (
        rw right
          (append_assoc before p (q ++ rest) ∙ ap (λ l. before ++ l) (sym (append_assoc p q rest))))
