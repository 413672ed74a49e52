-- ===== src/Fees/Laws.antt =====
-- What `FeesDispatcher.dispatch` guarantees.
use native.Mathlib.Nat.{zero-add, mul-zero, zero-div}
use carmentis_node.Base.{
  ap, ◌^◌, ℕ, zero, suc, ◌+◌, ◌-◌, ◌*◌, ◌/◌, ◌≤◌, ◌<◌, ◌≡◌, refl, ◌∙◌, some, List, [], ◌∷◌, arith,
  length, get_or, replicate, sum,
}
use carmentis_node.Fees.{total_powers, distribute, rounds_of, hand_out, share_out, dispatch}
use carmentis_node.Fees.Shares.{
  quotas-exact, length-exact_quotas, exact_quotas, total_powers-eq-sum, quotas, length-quotas,
  length-distribute, distribute-quotas, distribute-zero_start, quotas_bound,
}
use carmentis_node.Fees.Rounds.{length-hand_out, sum-hand_out, get_or-hand_out, hits-le-one}

-- The guards of `dispatch` only catch lists whose sum is zero.
dispatch-share_out :
    (fees : ℕ) (ps : List ℕ) (height : ℕ)
    → 0 < sum ps
    → dispatch fees ps height ≡ share_out fees ps height
unfolding dispatch
dispatch-share_out fees [] height h = absurd (omega arith)
dispatch-share_out fees (p ∷ []) height h = ground arith
dispatch-share_out fees (p ∷ q ∷ ps) height h = ground arith

-- With some voting power, `dispatch` is: the shares, and the rest handed out.
dispatch-hand_out :
    (fees : ℕ) (ps : List ℕ) (height : ℕ)
    → 0 < sum ps
    → dispatch fees ps height
      ≡ hand_out
          (fees - sum (quotas fees (sum ps) ps))
          0
          height
          (length ps)
          (quotas fees (sum ps) ps)
unfolding share_out rounds_of
dispatch-hand_out fees ps height h = rw (dispatch-share_out fees ps height h) (
    rw (total_powers-eq-sum 0 ps)
      (simp zero-add (rw (distribute-quotas fees (sum ps) ps [] 0 h) (simp zero-add))))

length_pos : (ps : List ℕ) → 0 < sum ps → 0 < length ps
length_pos [] h = h
length_pos (p ∷ ps) h = omega arith

length-share_out :
    (fees : ℕ) (ps : List ℕ) (height : ℕ) → length (share_out fees ps height) ≡ length ps
unfolding share_out
length-share_out fees ps height =
    let first = distribute fees (total_powers 0 ps) ps [] (some 0) in
    length-hand_out (rounds_of fees first.1) 0 height (length ps) first.0
    ∙ length-distribute fees (total_powers 0 ps) ps [] (some 0)
    ∙ zero-add (length ps)

-- There is one amount for each validator.
pub length-dispatch :
    (fees : ℕ) (ps : List ℕ) (height : ℕ) → length (dispatch fees ps height) ≡ length ps
unfolding dispatch
length-dispatch fees [] height = refl
length-dispatch fees (p ∷ []) height = ground (arith, length-share_out fees (p ∷ []) height)
length-dispatch fees (p ∷ q ∷ ps) height = ground (arith, length-share_out fees (p ∷ q ∷ ps) height)

-- If some validator has voting power, the amounts are never less than the fees.
pub sum-dispatch_ge :
    (fees : ℕ) (ps : List ℕ) (height : ℕ) → 0 < sum ps → fees ≤ sum (dispatch fees ps height)
sum-dispatch_ge fees ps height h =
    let q = quotas fees (sum ps) ps in
    rw (dispatch-hand_out fees ps height h) (
      omega (
        arith,
        sum-hand_out (fees - sum q) 0 height (length ps) q (length-quotas fees (sum ps) ps)
            (length_pos ps h),
      ))

-- The same where no product leaves the integers that doubles hold exactly: the shares are exact.
dispatch-exact :
    (fees : ℕ) (ps : List ℕ) (height : ℕ)
    → 0 < sum ps
    → sum ps < 2 ^ 53
    → fees * sum ps < 2 ^ 53
    → dispatch fees ps height
      ≡ hand_out
          (fees - sum (exact_quotas fees (sum ps) ps))
          0
          height
          (length ps)
          (exact_quotas fees (sum ps) ps)
dispatch-exact fees ps height h small below =
    dispatch-hand_out fees ps height h
    ∙ ap (λ q. hand_out (fees - sum q) 0 height (length ps) q)
        (quotas-exact fees (sum ps) ps h small below)

-- If some validator has voting power, and the product of the fees and all the power is below 2 ^ 53,
-- so that no product or quotient of doubles is rounded, the amounts add up to exactly the fees.
pub sum-dispatch :
    (fees : ℕ) (ps : List ℕ) (height : ℕ)
    → 0 < sum ps
    → sum ps < 2 ^ 53
    → fees * sum ps < 2 ^ 53
    → sum (dispatch fees ps height) ≡ fees
sum-dispatch fees ps height h small below =
    let q = exact_quotas fees (sum ps) ps in
    let (under, left) = quotas_bound fees ps h in
    rw (dispatch-exact fees ps height h small below) (
      omega (
        arith,
        sum-hand_out (fees - sum q) 0 height (length ps) q (length-exact_quotas fees (sum ps) ps)
            (length_pos ps h),
      ))

quota_at :
    (fees total : ℕ) (ps : List ℕ) (j : ℕ)
    → get_or (exact_quotas fees total ps) j 0 ≡ fees * get_or ps j 0 / total
quota_at fees total [] j = rw (mul-zero, zero-div)
quota_at fees total (p ∷ ps) zero = refl
quota_at fees total (p ∷ ps) (suc j) = quota_at fees total ps j

-- If some validator has voting power, and the product of the fees and all the power is below 2 ^ 53,
-- so that no product or quotient of doubles is rounded, each receives its rounded-down proportional
-- share of the fees or one unit more, whatever the block height.
pub dispatch_is_fair :
    (fees : ℕ) (ps : List ℕ) (height j : ℕ)
    → 0 < sum ps
    → sum ps < 2 ^ 53
    → fees * sum ps < 2 ^ 53
    → (fees * get_or ps j 0 / sum ps ≤ get_or (dispatch fees ps height) j 0)
      × (get_or (dispatch fees ps height) j 0 ≤ fees * get_or ps j 0 / sum ps + 1)
dispatch_is_fair fees ps height j h small below =
    let n = length ps in
    let q = exact_quotas fees (sum ps) ps in
    let rounds = fees - sum q in
    let (under, left) = quotas_bound fees ps h in
    let reached =
      get_or-hand_out rounds 0 height n j q (length-exact_quotas fees (sum ps) ps)
        (length_pos ps h) in
    rw (dispatch-exact fees ps height h small below) (
      rw (reached, quota_at fees (sum ps) ps j)
        (omega (arith, hits-le-one rounds 0 height n j left)))

-- If no validator has voting power, every amount is zero.
pub dispatch-zero :
    (fees : ℕ) (ps : List ℕ) (height : ℕ)
    → sum ps ≡ 0
    → dispatch fees ps height ≡ replicate (length ps) 0
unfolding dispatch share_out rounds_of hand_out
dispatch-zero fees [] height h = refl
dispatch-zero fees (p ∷ []) height h = ground arith
dispatch-zero fees (p ∷ q ∷ ps) height h =
    rw (total_powers-eq-sum 0 (p ∷ q ∷ ps))
      (rw h (rw (distribute-zero_start fees p (q ∷ ps)) (ground arith)))
