-- ===== src/Merkle/Height.antt =====
-- The columns above a leaf, and the height of the tree.
use native.Mathlib.Nat.{div-div-eq-div-mul, pow-suc, mod-eq_of_lt, div-one}
use native.Mathlib.Decide.{ℕ_discrete}
use native.Mathlib.Numerals.{add-one}
use carmentis_node.Base.{
  ℕ, zero, suc, ◌+◌, ◌-◌, ◌/◌, ◌%◌, ◌^◌, ◌≤◌, ◌<◌, ◌≡◌, refl, sym, ap, ◌∙◌, ◌≢◌, arith, ok,
}
use carmentis_node.Merkle.{bit_length, size_to_height, shr}

-- The column of the ancestor of leaf `i` at a row.
abbrev pub path : ℕ → ℕ → ℕ
path i zero = i
path i (suc row) = path i row / 2

pub path-eq-div : (i row : ℕ) → path i row ≡ i / 2 ^ row
path-eq-div i zero = sym (div-one i)
path-eq-div i (suc row) =
    rw (path-eq-div i row)
      (div-div-eq-div-mul i (2 ^ row) 2 ∙ ap (λ n. i / n) (sym (pow-suc 2 row)))

pub shr-path : (i row : ℕ) → i < 2 ^ 32 → shr i row ≡ path i row
shr-path i row h = rw (mod-eq_of_lt h) (sym (path-eq-div i row))

pub path-next : (i row : ℕ) → path i (row + 1) ≡ path i row / 2
path-next i row = rw add-one

pub path-half : (i row : ℕ) → path (i / 2) row ≡ path i row / 2
path-half i zero = refl
path-half i (suc row) = ap (λ n. n / 2) (path-half i row)

pub path-le : (i row : ℕ) → path i row ≤ i
path-le i zero = omega arith
path-le i (suc row) = omega (arith, path-le i row)

path-zero : (x row : ℕ) → x ≡ 0 → path x row ≡ 0
path-zero x zero h = h
path-zero x (suc row) h = omega (arith, path-zero x row h)

pub path_mono : (i j row : ℕ) → i ≤ j → path i row ≤ path j row
path_mono i j zero h = h
path_mono i j (suc row) h = omega (arith, path_mono i j row h)

-- The rows at which the path has not yet reached column 0 are those below the bit length.
path-pos : (n x row : ℕ) → row < bit_length n x → path x row ≢ 0
unfolding bit_length
path-pos zero x row h = absurd (omega arith)
path-pos (suc n) x zero h = ground arith
path-pos (suc n) x (suc row) h = ground (arith, path-pos n (x / 2) row, path-half x row)

lt-bit_length : (n x row : ℕ) → x < 2 ^ n → path x row ≢ 0 → row < bit_length n x
unfolding bit_length
lt-bit_length zero x row h k = absurd (k (path-zero x row (omega arith)))
lt-bit_length (suc n) x zero h k = ground arith
lt-bit_length (suc n) x (suc row) h k =
    let half : x / 2 < 2 ^ n = omega (arith, pow-suc 2 n) in
    ground (arith, lt-bit_length n (x / 2) row half, path-half x row, path-zero x (suc row))

bit_length-le : (n x : ℕ) → bit_length n x ≤ n
unfolding bit_length
bit_length-le zero x = omega arith
bit_length-le (suc n) x = ground (arith, bit_length-le n (x / 2))

-- The height of a tree whose last leaf is `last`, less one: the row of the root.
unfoldable pub top : ℕ → ℕ
top last = bit_length 32 last

pub top-le : (last : ℕ) → top last ≤ 32
unfolding top
top-le last = bit_length-le 32 last

pub path-below_top : (last row : ℕ) → row < top last → path last row ≢ 0
unfolding top
path-below_top last row h = path-pos 32 last row h

pub lt-top : (last row : ℕ) → last < 2 ^ 32 → path last row ≢ 0 → row < top last
unfolding top
lt-top last row h k = lt-bit_length 32 last row h k

pub top-zero : top 0 ≡ 0
unfolding top bit_length
top-zero = refl

-- From the row of the root on, the path is in column 0.
pub path-top : (last row : ℕ) → last < 2 ^ 32 → top last ≤ row → path last row ≡ 0
path-top last row h le = elim (ℕ_discrete (path last row) 0) [
  | yes z ↦ z
  | no nz ↦ let lt : row < top last = lt-top last row h nz in absurd (omega arith)
]

pub size_to_height-top : (last : ℕ) → last < 2 ^ 32 → size_to_height (last + 1) ≡ ok (top last + 1)
unfolding size_to_height top
size_to_height-top last h =
    let same : (last + 1 - 1) % 2 ^ 32 ≡ last = omega arith in
    rw same (ground (arith, bit_length-le 32 last))
