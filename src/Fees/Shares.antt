-- ===== src/Fees/Shares.antt =====
-- The first loop of `FeesDispatcher.dispatch`: the rounded-down shares, and what they leave over.
use mathlib.Core.List.{append_assoc, append-nil}
use native.Mathlib.Nat.{div-mul-le_self, lt-div-mul-add, add-zero, add_assoc}
use carmentis_node.Base.Doubles.{floor_quotient, round_double-exact, floor_quotient-exact}
use carmentis_node.Base.{
  ap, ◌^◌, ℕ, ◌+◌, ◌-◌, ◌*◌, ◌/◌, ◌≤◌, ◌<◌, ◌≡◌, refl, ◌∙◌, Option, none, some, List, [], ◌∷◌, ◌++◌,
  arith, length, length-append, replicate, sum,
}
use carmentis_node.Fees.{floor_quotient, rounded_share, total_powers, share, distribute}

pub total_powers-eq-sum : (acc : ℕ) (ps : List ℕ) → total_powers acc ps ≡ acc + sum ps
unfolding total_powers
total_powers-eq-sum acc [] = omega arith
total_powers-eq-sum acc (p ∷ ps) = total_powers-eq-sum (acc + p) ps ∙ add_assoc acc p (sum ps)

-- The shares, when the total is not zero.
abbrev pub quotas : ℕ → ℕ → List ℕ → List ℕ
quotas fees total [] = []
quotas fees total (p ∷ ps) = rounded_share fees total p ∷ quotas fees total ps

pub length-quotas : (fees total : ℕ) (ps : List ℕ) → length (quotas fees total ps) ≡ length ps
length-quotas fees total [] = refl
length-quotas fees total (p ∷ ps) = omega (arith, length-quotas fees total ps)

share_pos : (fees total p : ℕ) → 0 < total → share fees total p ≡ some (rounded_share fees total p)
unfolding share
share_pos fees total p h = ground arith

pub distribute-quotas :
    (fees total : ℕ) (ps result : List ℕ) (d : ℕ)
    → 0 < total
    → distribute fees total ps result (some d)
      ≡ (result ++ quotas fees total ps, some (d + sum (quotas fees total ps)))
unfolding distribute
distribute-quotas fees total [] result d h = rw (append-nil, add-zero)
distribute-quotas fees total (p ∷ ps) result d h = rw (share_pos fees total p h) (
    rw (distribute-quotas fees total ps _ (d + rounded_share fees total p) h)
      (simp (append_assoc, add_assoc)))

pub length-distribute :
    (fees total : ℕ) (ps result : List ℕ) (d : Option ℕ)
    → length (distribute fees total ps result d).0 ≡ length result + length ps
unfolding distribute
length-distribute fees total [] result d = omega arith
length-distribute fees total (p ∷ ps) result d =
    length-distribute fees total ps _ _ ∙ rw length-append (omega arith)

-- With no voting power at all every share is NaN, which is stored as 0 and spoils the sum.
distribute-zero :
    (fees : ℕ) (ps result : List ℕ)
    → distribute fees 0 ps result none ≡ (result ++ replicate (length ps) 0, none)
unfolding distribute
distribute-zero fees [] result = rw append-nil
distribute-zero fees (p ∷ ps) result = rw (distribute-zero fees ps _) (simp append_assoc)

pub distribute-zero_start :
    (fees : ℕ) (p : ℕ) (ps : List ℕ)
    → distribute fees 0 (p ∷ ps) [] (some 0) ≡ (replicate (length (p ∷ ps)) 0, none)
unfolding distribute
distribute-zero_start fees p ps = distribute-zero fees ps (0 ∷ [])

-- The shares, where no product leaves the integers that doubles hold exactly.
abbrev pub exact_quotas : ℕ → ℕ → List ℕ → List ℕ
exact_quotas fees total [] = []
exact_quotas fees total (p ∷ ps) = fees * p / total ∷ exact_quotas fees total ps

pub length-exact_quotas :
    (fees total : ℕ) (ps : List ℕ) → length (exact_quotas fees total ps) ≡ length ps
length-exact_quotas fees total [] = refl
length-exact_quotas fees total (p ∷ ps) = omega (arith, length-exact_quotas fees total ps)

rounded_share-exact :
    (fees total p : ℕ)
    → 0 < total
    → total < 2 ^ 53
    → fees * p < 2 ^ 53
    → rounded_share fees total p ≡ fees * p / total
rounded_share-exact fees total p pos small below =
    ap (λ a. floor_quotient a total) (round_double-exact (fees * p) below)
    ∙ floor_quotient-exact (fees * p) total pos (omega (arith, small)) below

pub quotas-exact :
    (fees total : ℕ) (ps : List ℕ)
    → 0 < total
    → total < 2 ^ 53
    → fees * sum ps < 2 ^ 53
    → quotas fees total ps ≡ exact_quotas fees total ps
quotas-exact fees total [] pos small below = refl
quotas-exact fees total (p ∷ ps) pos small below =
    let first = rounded_share-exact fees total p pos small (omega (arith, below)) in
    let rest = quotas-exact fees total ps pos small (omega (arith, below)) in rw (first, rest) refl

-- These shares never exceed the fees, and fall short of them by less than one for each validator.
sum-exact_quotas-le :
    (fees total : ℕ) (ps : List ℕ) → sum (exact_quotas fees total ps) * total ≤ fees * sum ps
sum-exact_quotas-le fees total [] = omega arith
sum-exact_quotas-le fees total (p ∷ ps) =
    omega (arith, sum-exact_quotas-le fees total ps, div-mul-le_self (fees * p) total)

lt-sum-exact_quotas :
    (fees total : ℕ) (ps : List ℕ)
    → 0 < total
    → fees * sum ps + length ps ≤ (sum (exact_quotas fees total ps) + length ps) * total
lt-sum-exact_quotas fees total [] h = omega arith
lt-sum-exact_quotas fees total (p ∷ ps) h =
    omega (arith, lt-sum-exact_quotas fees total ps h, lt-div-mul-add {a = fees * p} h)

cancel_le : (a b t : ℕ) → 0 < t → a * t ≤ b * t → a ≤ b
cancel_le a b t h k = grind arith

pub quotas_bound :
    (fees : ℕ) (ps : List ℕ)
    → 0 < sum ps
    → (sum (exact_quotas fees (sum ps) ps) ≤ fees)
      × (fees - sum (exact_quotas fees (sum ps) ps) ≤ length ps)
quotas_bound fees ps h =
    let q = sum (exact_quotas fees (sum ps) ps) in
    let lo : q ≤ fees = cancel_le q fees (sum ps) h (sum-exact_quotas-le fees (sum ps) ps) in
    let hi : fees ≤ q + length ps =
      cancel_le fees (q + length ps) (sum ps) h
        (omega (arith, lt-sum-exact_quotas fees (sum ps) ps h)) in
    (lo, omega arith)
