-- ===== src/Fees.antt =====
-- The split of the block fees among the validators (src/carmentis/abci/accounts/FeesDispatcher.ts).
-- Amounts, powers and their sums are non-negative integers below 2 ^ 53, which doubles hold exactly;
-- the product of the fees and a power, and its quotient by the total, are those of doubles.
pub mod Shares
pub mod Rounds
pub mod Laws
mod Examples
use carmentis_node.Base.Doubles.{round_double, floor_quotient}
use carmentis_node.Base.{
  ℕ, zero, suc, ◌+◌, ◌-◌, ◌*◌, ◌/◌, ◌%◌, Bool, ◌&&◌, Option, none, some, List, [], ◌∷◌, ◌++◌,
  length, get_or, set, ◌==◌, if◌then◌else◌,
}

-- `reduce((acc, power) => acc + power, 0)`
pub total_powers : ℕ → List ℕ → ℕ
total_powers acc [] = acc
total_powers acc (p ∷ ps) = total_powers (acc + p) ps

-- `Math.floor((feesInAtomics * power) / totalValidationPowers)`, where the total is not 0
abbrev pub rounded_share : ℕ → ℕ → ℕ → ℕ
rounded_share fees total power = floor_quotient (round_double (fees * power)) total

-- The share of a power. `none` is NaN: the total is the sum of the powers, so
-- where it is 0 the numerator is 0 too.
share : ℕ → ℕ → ℕ → Option ℕ
share fees total power = if total == 0 then none else some (rounded_share fees total power)

-- `Number.isNaN(x) ? 0 : x`
nan_to_zero : Option ℕ → ℕ
nan_to_zero none = 0
nan_to_zero (some x) = x

-- `+=` where an operand may be NaN
add_number : Option ℕ → Option ℕ → Option ℕ
add_number (some a) (some b) = some (a + b)
add_number _ _ = none

-- The first loop: `result` and `distributedFees`.
pub distribute : ℕ → ℕ → List ℕ → List ℕ → Option ℕ → List ℕ × Option ℕ
unfolding share nan_to_zero add_number
distribute fees total [] result distributed = (result, distributed)
distribute fees total (p ∷ ps) result distributed =
    distribute fees total ps (result ++ (nan_to_zero (share fees total p) ∷ []))
      (add_number distributed (share fees total p))

-- `result[index] = result[index] + 1`
increment : List ℕ → ℕ → List ℕ
increment result index = set result index (get_or result index 0 + 1)

-- The second loop, with `rounds` rounds left of it.
pub hand_out : ℕ → ℕ → ℕ → ℕ → List ℕ → List ℕ
unfolding increment
hand_out zero i height n result = result
hand_out (suc rounds) i height n result =
    hand_out rounds (i + 1) height n (increment result ((height + i) % n))

-- The rounds of `for (let i = 0; i < remainingFees; i++)`: none for NaN or a negative bound.
rounds_of : ℕ → Option ℕ → ℕ
rounds_of fees none = 0
rounds_of fees (some distributed) = fees - distributed

-- The two loops of `dispatch`.
pub share_out : ℕ → List ℕ → ℕ → List ℕ
unfolding total_powers distribute hand_out rounds_of
share_out fees powers height =
    let (result, distributed) = distribute fees (total_powers 0 powers) powers [] (some 0) in
    hand_out (rounds_of fees distributed) 0 height (length powers) result

-- `FeesDispatcher.dispatch`
unfoldable pub dispatch : ℕ → List ℕ → ℕ → List ℕ
unfolding share_out
dispatch fees powers height =
    let n = length powers in
    if n == 0
    then []
    else if (n == 1) && (get_or powers 0 0 == 0)
    then 0 ∷ []
    else share_out fees powers height
