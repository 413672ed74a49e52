-- ===== src/Fees/Rounds.antt =====
-- The second loop of `FeesDispatcher.dispatch`: one unit to each of some consecutive validators.
use native.Mathlib.Decide.{dec_le}
use native.Mathlib.Nat.{mod-lt, div-add-mod}
use carmentis_node.Base.{
  ℕ, zero, suc, ◌+◌, ◌-◌, ◌*◌, ◌/◌, ◌%◌, ◌≤◌, ◌<◌, ◌≡◌, refl, ◌≢◌, ◌∙◌, List, [], ◌∷◌, arith,
  length, get_or, set, length-set, sum, ◌==◌, if◌then◌else◌,
}
use carmentis_node.Fees.{increment, hand_out}

sum-set : (xs : List ℕ) (i v : ℕ) → i < length xs → sum (set xs i v) + get_or xs i 0 ≡ sum xs + v
sum-set [] i v h = absurd (omega arith)
sum-set (x ∷ xs) zero v h = omega arith
sum-set (x ∷ xs) (suc i) v h = omega (arith, sum-set xs i v (omega arith))

get_or-set :
    (xs : List ℕ) (i j v : ℕ)
    → i < length xs
    → get_or (set xs i v) j 0 ≡ (if i == j then v else get_or xs j 0)
get_or-set [] i j v h = absurd (omega arith)
get_or-set (x ∷ xs) zero zero v h = refl
get_or-set (x ∷ xs) zero (suc j) v h = ground arith
get_or-set (x ∷ xs) (suc i) zero v h = ground arith
get_or-set (x ∷ xs) (suc i) (suc j) v h = get_or-set xs i j v (omega arith) ∙ ground arith

length-increment : (xs : List ℕ) (i : ℕ) → length (increment xs i) ≡ length xs
unfolding increment
length-increment xs i = length-set xs i (get_or xs i 0 + 1)

pub length-hand_out :
    (rounds i height n : ℕ) (xs : List ℕ) → length (hand_out rounds i height n xs) ≡ length xs
unfolding hand_out
length-hand_out zero i height n xs = refl
length-hand_out (suc rounds) i height n xs =
    length-hand_out rounds (i + 1) height n (increment xs ((height + i) % n))
    ∙ length-increment xs ((height + i) % n)

sum-increment : (xs : List ℕ) (i : ℕ) → i < length xs → sum (increment xs i) ≡ sum xs + 1
unfolding increment
sum-increment xs i h = omega (arith, sum-set xs i (get_or xs i 0 + 1) h)

-- Every round adds one unit to the sum.
pub sum-hand_out :
    (rounds i height n : ℕ) (xs : List ℕ)
    → length xs ≡ n
    → 0 < n
    → sum (hand_out rounds i height n xs) ≡ sum xs + rounds
unfolding hand_out
sum-hand_out zero i height n xs e pos = omega arith
sum-hand_out (suc rounds) i height n xs e pos =
    let j = (height + i) % n in
    let low : j < length xs = omega (arith, mod-lt (height + i) pos) in
    omega (
      arith,
      sum-increment xs j low,
      sum-hand_out rounds (i + 1) height n (increment xs j) (length-increment xs j ∙ e) pos,
    )

-- How often the rounds from `i` on reach validator `j`.
abbrev pub hits : ℕ → ℕ → ℕ → ℕ → ℕ → ℕ
hits zero i height n j = 0
hits (suc rounds) i height n j =
    (if (height + i) % n == j then 1 else 0) + hits rounds (i + 1) height n j

get_or-increment :
    (xs : List ℕ) (i j : ℕ)
    → i < length xs
    → get_or (increment xs i) j 0 ≡ get_or xs j 0 + (if i == j then 1 else 0)
unfolding increment
get_or-increment xs i j h = ground (arith, get_or-set xs i j (get_or xs i 0 + 1) h)

pub get_or-hand_out :
    (rounds i height n j : ℕ) (xs : List ℕ)
    → length xs ≡ n
    → 0 < n
    → get_or (hand_out rounds i height n xs) j 0 ≡ get_or xs j 0 + hits rounds i height n j
unfolding hand_out
get_or-hand_out zero i height n j xs e pos = omega arith
get_or-hand_out (suc rounds) i height n j xs e pos =
    let k = (height + i) % n in
    let low : k < length xs = omega (arith, mod-lt (height + i) pos) in
    omega (
      arith,
      get_or-increment xs k j low,
      get_or-hand_out rounds (i + 1) height n j (increment xs k) (length-increment xs k ∙ e) pos,
    )

multiples_apart : (n p q d : ℕ) → 0 < d → d < n → n * p ≢ n * q + d
multiples_apart n p q d h k e = elim (dec_le p q) [
  | yes le ↦ grind arith
  | no gt ↦ let more : suc q ≤ p = omega arith in grind arith
]

-- Validators fewer than `n` rounds apart are not the same.
mod_apart : (a d n : ℕ) → 0 < d → d < n → (a + d) % n ≢ a % n
mod_apart a d n h k e =
    multiples_apart n ((a + d) / n) (a / n) d h k
      (omega (arith, div-add-mod (a + d) n, div-add-mod a n))

hits_none :
    (rounds i height n m : ℕ)
    → m < i
    → i + rounds ≤ m + n
    → hits rounds i height n ((height + m) % n) ≡ 0
hits_none zero i height n m h k = refl
hits_none (suc rounds) i height n m h k = ground (
  arith,
  hits_none rounds (i + 1) height n m (omega arith) (omega arith),
  mod_apart (height + m) (i - m) n (omega arith) (omega arith),
)

-- In at most `n` rounds no validator is reached twice.
pub hits-le-one : (rounds i height n j : ℕ) → rounds ≤ n → hits rounds i height n j ≤ 1
hits-le-one zero i height n j h = omega arith
hits-le-one (suc rounds) i height n j h = grind (
  arith,
  hits-le-one rounds (i + 1) height n j (omega arith),
  hits_none rounds (i + 1) height n i (omega arith) (omega arith),
)
