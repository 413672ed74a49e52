-- ===== src/Base/Doubles.antt =====
-- The doubles of JavaScript, as far as products and quotients of non-negative integers need them.
use native.Mathlib.Nat.{
  suc-add, zero-add, eq-zero-or-pos, mul-one, div-le_self, pow-suc, mul-le-mul_left,
  mul-le-mul_right, div-eq_of_lt-le, lt_of_mul-lt-mul_left, lt-mul-div-succ, le-div_iff_mul-le,
  div-mul-le_self, div-add-mod,
}
use Prim.Native.Nat.{ℕ, zero, suc, ◌+◌, ◌-◌, ◌*◌, ◌/◌, ◌%◌, ◌^◌, ◌≤◌, ◌<◌}
use mathlib.Core.Path.{◌≡◌, refl, ap, ◌∙◌}
use native.Mathlib.Omega.{arith}
use mathlib.Core.Logic.{inl, inr}
use carmentis_node.Base.Tests.{Bool-cases, ltb, if◌then◌else◌}

-- The number of bits of an integer below `2 ^ fuel`.
unfoldable pub bit_count : ℕ → ℕ → ℕ
bit_count zero x = 0
bit_count (suc fuel) zero = 0
bit_count (suc fuel) (suc y) = suc (bit_count fuel (suc y / 2))

-- The integer nearest to `a / b`, and of two that are as near the even one.
unfoldable pub nearest : ℕ → ℕ → ℕ
nearest a b =
    let q = a / b in
    let r = a % b in if ltb (2 * r) b then q else if ltb b (2 * r) then q + 1 else q + q % 2

-- The double nearest to an integer below `2 ^ 128`: of its bits 53 are kept.
unfoldable pub round_double : ℕ → ℕ
unfolding bit_count nearest
round_double x = let e = bit_count 128 x - 53 in nearest x (2 ^ e) * 2 ^ e

-- `Math.floor(a / b)`: the double nearest to the quotient has 53 bits, of which those before the
-- point are kept.
unfoldable pub floor_quotient : ℕ → ℕ → ℕ
unfolding bit_count nearest
floor_quotient a b =
    let l = bit_count 128 (a / b) in
    nearest (a * 2 ^ (53 - l)) (b * 2 ^ (l - 53)) * 2 ^ (l - 53) / 2 ^ (53 - l)

-- Integers of few bits have few bits.
bit_count-le : (fuel n x : ℕ) → x < 2 ^ n → bit_count fuel x ≤ n
unfolding bit_count
bit_count-le zero n x h = omega arith
bit_count-le (suc fuel) n zero h = omega arith
bit_count-le (suc fuel) zero (suc y) h = absurd (omega (arith, h))
bit_count-le (suc fuel) (suc n) (suc y) h =
    let half : suc y / 2 < 2 ^ n = omega (arith, h) in
    omega (arith, bit_count-le fuel n (suc y / 2) half)

bit_count-zero : (fuel : ℕ) → bit_count fuel 0 ≡ 0
unfolding bit_count
bit_count-zero zero = refl
bit_count-zero (suc fuel) = refl

-- A positive integer reaches half of the power of two above its bits.
two_pow-bit_count-le : (fuel x : ℕ) → 0 < x → 2 ^ bit_count fuel x ≤ 2 * x
unfolding bit_count
two_pow-bit_count-le zero x h = omega arith
two_pow-bit_count-le (suc fuel) zero h = absurd (omega arith)
two_pow-bit_count-le (suc fuel) (suc zero) h = rw (bit_count-zero fuel) (omega arith)
two_pow-bit_count-le (suc fuel) (suc (suc y)) h =
    let half = suc (suc y) / 2 in
    omega (arith, two_pow-bit_count-le fuel half (omega arith), pow-suc 2 (bit_count fuel half))

nearest-ge : (a b : ℕ) → a / b ≤ nearest a b
unfolding nearest
nearest-ge a b = ground arith

nearest-le : (a b : ℕ) → 0 < b → 2 * b * nearest a b ≤ 2 * a + b
unfolding nearest
nearest-le a b h =
    let q = a / b in
    let r = a % b in
    let whole = div-add-mod a b in
    let odd : q % 2 ≤ 1 = omega arith in
    elim (Bool-cases (ltb (2 * r) b)) [
      | inl c ↦ rw c (omega (arith, whole))
      | inr c ↦ elim (Bool-cases (ltb b (2 * r))) [
        | inl d ↦
            let more : b ≤ 2 * r = ground (arith, d) in rw c (rw d (omega (arith, whole, more)))
        | inr d ↦
            let half : b ≤ 2 * r = ground (arith, c) in
            rw c (rw d (omega (arith, whole, half, mul-le-mul_left b odd)))
      ]
    ]

-- An integer below `2 ^ 53` is a double.
pub round_double-exact : (x : ℕ) → x < 2 ^ 53 → round_double x ≡ x
unfolding round_double nearest
round_double-exact x h =
    let none_over : bit_count 128 x - 53 ≡ 0 = omega (arith, bit_count-le 128 53 x h) in
    rw none_over (ground arith)

-- Between a multiple of `p` and the next one, the quotient is that of the first.
within_multiples :
    (b q p n a : ℕ)
    → q * b ≤ a
    → a < (q + 1) * b
    → b < 2 * p
    → a * p / b ≤ n
    → 2 * b * n ≤ 2 * (a * p) + b
    → 0 < b
    → n < (q + 1) * p
within_multiples b q p n a lo hi small ge le pos =
    let gap : (a + 1) * p ≤ (q + 1) * b * p = mul-le-mul_right p (omega (arith, hi)) in
    let twice : 2 * b * n < 2 * b * ((q + 1) * p) = omega (arith, gap, le, small) in
    lt_of_mul-lt-mul_left (2 * b) twice

two_pow-add : (m n : ℕ) → 2 ^ m * 2 ^ n ≡ 2 ^ (m + n)
two_pow-add zero n = rw zero-add (omega arith)
two_pow-add (suc m) n =
    rw (suc-add, pow-suc 2 m, pow-suc 2 (m + n)) (omega (arith, two_pow-add m n))

-- Half of the power of two above the bits of a quotient, and what the mantissa adds to it.
small_divisor :
    (a b : ℕ) → 0 < b → b < 2 ^ 54 → a < 2 ^ 53 → b < 2 * 2 ^ (53 - bit_count 128 (a / b))
small_divisor a b pos small below =
    let q = a / b in
    let l = bit_count 128 q in
    elim (eq-zero-or-pos q) [
      | inl none ↦ rw (none, bit_count-zero 128) small
      | inr some ↦
          let low : q < 2 ^ 53 = omega (arith, div-le_self a b) in
          let few = bit_count-le 128 53 q low in
          let whole : l + (53 - l) ≡ 53 = omega (arith, few) in
          let split : 2 ^ l * 2 ^ (53 - l) ≡ 2 ^ 53 =
            two_pow-add l (53 - l) ∙ ap (λ e. 2 ^ e) whole in
          let twice : 2 ^ l * b ≤ 2 * q * b =
            mul-le-mul_right b (two_pow-bit_count-le 128 q some) in
          let less : 2 ^ l * b < 2 ^ l * (2 * 2 ^ (53 - l)) =
            omega (arith, twice, split, div-mul-le_self a b) in
          lt_of_mul-lt-mul_left (2 ^ l) less
    ]

-- Where the numerator is below `2 ^ 53`, and the denominator below twice that, the quotient of
-- doubles, rounded down, is exact.
pub floor_quotient-exact : (a b : ℕ) → 0 < b → b < 2 ^ 54 → a < 2 ^ 53 → floor_quotient a b ≡ a / b
unfolding floor_quotient
floor_quotient-exact a b pos small below =
    let l = bit_count 128 (a / b) in
    let p = 2 ^ (53 - l) in
    let low : a / b < 2 ^ 53 = omega (arith, div-le_self a b) in
    let none_over : l - 53 ≡ 0 = omega (arith, bit_count-le 128 53 (a / b) low) in
    let n = nearest (a * p) b in
    let hi : n < (a / b + 1) * p =
      within_multiples b (a / b) p n a (div-mul-le_self a b) (omega (arith, lt-mul-div-succ a pos))
        (small_divisor a b pos small below) (nearest-ge (a * p) b) (nearest-le (a * p) b pos) pos in
    let multiple = mul-le-mul_right p (div-mul-le_self a b) in
    let lo : a / b * p ≤ n = omega (
      arith,
      (le-div_iff_mul-le {k = b} {x = a / b * p} {y = a * p} pos).1 (omega (arith, multiple)),
      nearest-ge (a * p) b,
    ) in
    rw (none_over, mul-one b, mul-one n) (div-eq_of_lt-le p lo hi)
