-- ===== src/Fees/Examples.antt =====
-- Runs of `FeesDispatcher.dispatch`, and its theorems at concrete inputs.
use carmentis_node.Base.{◌≤◌, ◌≡◌, refl, List, ℕ, [], ◌∷◌, ◌*◌, ◌/◌, ◌+◌, arith, get_or, sum}
use carmentis_node.Base.Doubles.{round_double, floor_quotient}
use carmentis_node.Fees.{dispatch}
use carmentis_node.Fees.Laws.{sum-dispatch, dispatch_is_fair}

abbrev powers : List ℕ
powers = 1 ∷ 1 ∷ 1 ∷ []

dispatch-powers : dispatch 11 powers 5 ≡ 4 ∷ 3 ∷ 4 ∷ []
unfolding dispatch round_double floor_quotient
dispatch-powers = refl

dispatch_single : dispatch 11 (0 ∷ []) 5 ≡ 0 ∷ []
unfolding dispatch round_double floor_quotient
dispatch_single = refl

-- Products that doubles do not hold: the first share is one above the exact one, 2340, and so gets
-- two units more in the end.
dispatch-rounded :
    dispatch 3000 (7222296852617 ∷ 877292610845 ∷ 1155810176799 ∷ []) 0 ≡ 2342 ∷ 284 ∷ 374 ∷ []
unfolding dispatch round_double floor_quotient
dispatch-rounded = refl

-- The amounts are one more than the fees.
dispatch-exceeding :
    sum (dispatch 8501501752407398 (2703959022377075 ∷ 4030487447070955 ∷ []) 0) ≡ 8501501752407399
unfolding dispatch round_double floor_quotient
dispatch-exceeding = refl

sum-dispatch_example : sum (dispatch 11 powers 5) ≡ 11
sum-dispatch_example = sum-dispatch 11 powers 5 (omega arith) (omega arith) (omega arith)

dispatch_is_fair_example :
    (11 * 1 / 3 ≤ get_or (dispatch 11 powers 5) 2 0)
    × (get_or (dispatch 11 powers 5) 2 0 ≤ 11 * 1 / 3 + 1)
dispatch_is_fair_example = dispatch_is_fair 11 powers 5 2 (omega arith) (omega arith) (omega arith)
