-- ===== src/GlobalState/Dispatch.antt =====
-- The block fees are paid out in full (`dispatchFeesAmongValidators` of GlobalStateUpdater.ts).
use carmentis_node.Base.Ints.{ltb_ℤ}
use carmentis_node.Base.Effects.{bind}
use carmentis_node.Base.{
  map, some, ◌-◌, suc, ℕ, ◌<◌, ◌≡◌, refl, sym, ap, ◌∙◌, false, inl, inr, List, [], ◌∷◌, Bytes,
  bytes_eq, length, sum, ◌==◌, arith, Bool-cases, bytes_eq_iff,
}
use carmentis_node.Base.Effects.{done, bind-eq-done, done_injective}
use carmentis_node.Base.Ints.{pos, minus, ◌+ℤ◌, +ℤ_zero, minus-minus}
use mathlib.Core.Path.{subst}
use carmentis_node.Base.Ints.{pos_minus-zero, ◌≤ℤ◌}
use carmentis_node.Accounts.Sdk.{is_plus}
use carmentis_node.Accounts.Transfer.{Context, token_transfer}
use carmentis_node.Accounts.Checks.{token_transfer-balance_nonneg}
use carmentis_node.GlobalState.Sections.{transfer_of}
use carmentis_node.GlobalState.Payments.{on_world-eq_done}
use carmentis_node.Database.Stores.{Database}
use carmentis_node.Accounts.Sdk.{Radix}
use carmentis_node.Fees.{dispatch}
use carmentis_node.Fees.Laws.{length-dispatch, sum-dispatch_ge}
use carmentis_node.GlobalState.Types.{Node, NodeSdk}
use carmentis_node.GlobalState.Blocks.{
  FinalizeRequest, paid_accounts, accounts_of, stakes_of, pay_validator, pay_validators,
  dispatch_fees_among_validators,
}
use carmentis_node.GlobalState.Payments.{balance_of, payment-balance}

module _ (db : Database) (sdk : NodeSdk db) (radix : Radix db) where
  -- No account of the list is the account of the block fees.
  abbrev pub IsOutside : List Bytes → Type 0
  IsOutside [] = Unit
  IsOutside (account ∷ accounts) =
      (bytes_eq account sdk.account_block_fees ≡ false) × IsOutside accounts

  -- No amount of the dispatcher is skipped.
  pay_first :
      (account : Bytes) (accounts : List Bytes) (fees : ℕ) (shares : List ℕ) (height time : ℕ)
      (n n' : Node db)
      → pay_validators db sdk radix (account ∷ accounts) (map pos (fees ∷ shares)) height time n
        ≡ done tt n'
      → bind
          (pay_validator db sdk radix account fees height time n)
          (λ ended. pay_validators db sdk radix accounts (map pos shares) height time)
        ≡ done tt n'
  unfolding pay_validators
  pay_first account accounts fees shares height time n n' e =
      let kept : ltb_ℤ (pos fees) (pos 0) ≡ false = ground arith in rw kept at e

  pay_validators-balance :
      (accounts : List Bytes) (shares : List ℕ) (height time : ℕ) (n n' : Node db)
      → length shares ≡ length accounts
      → IsOutside accounts
      → pay_validators db sdk radix accounts (map pos shares) height time n ≡ done tt n'
      → balance_of db sdk radix n' sdk.account_block_fees
        ≡ balance_of db sdk radix n sdk.account_block_fees +ℤ minus (sum shares)
  unfolding pay_validators pay_validator
  pay_validators-balance [] [] height time n n' h outside e =
      ap (λ m. balance_of db sdk radix m sdk.account_block_fees) (sym (done_injective e).1)
      ∙ sym (+ℤ_zero (balance_of db sdk radix n sdk.account_block_fees))
  pay_validators-balance [] (fees ∷ shares) height time n n' h outside e = ground (arith, h)
  pay_validators-balance (account ∷ accounts) [] height time n n' h outside e = ground (arith, h)
  pay_validators-balance (account ∷ accounts) (fees ∷ shares) height time n n' h (other, outside)
        e =
      let (u, m, paid, rest) =
        bind-eq-done (pay_validator db sdk radix account fees height time n)
          (λ ended. pay_validators db sdk radix accounts (map pos shares) height time)
          (pay_first account accounts fees shares height time n n' e) in
      let first =
        payment-balance db sdk radix sdk.bk_paid_block_fees sdk.account_block_fees account fees _ n
          m sdk.bk_paid_block_fees-even paid sdk.account_block_fees in
      let others =
        pay_validators-balance accounts shares height time m n' (omega (arith, h)) outside rest in
      let balance = balance_of db sdk radix n sdk.account_block_fees in
      let left : balance_of db sdk radix m sdk.account_block_fees ≡ balance +ℤ minus fees =
        ground (arith, first, other, bytes_eq_iff sdk.account_block_fees sdk.account_block_fees) in
      others ∙ ap (λ b. b +ℤ minus (sum shares)) left ∙ minus-minus balance fees (sum shares)

  abbrev payment_context : ℕ → ℕ → Context sdk.accounts
  payment_context height time = record {
    chain_reference = sdk.accounts.block_reference (height - 1);
    timestamp = time;
    public_reference = [];
    private_reference = [];
  }

  -- A payment that ends leaves the account of the block fees at zero or more, since it is checked.
  pay_validators-nonneg :
      (accounts : List Bytes) (shares : List ℕ) (height time : ℕ) (n n' : Node db)
      → pos 0 ≤ℤ balance_of db sdk radix n sdk.account_block_fees
      → pay_validators db sdk radix accounts (map pos shares) height time n ≡ done tt n'
      → pos 0 ≤ℤ balance_of db sdk radix n' sdk.account_block_fees
  unfolding pay_validators pay_validator
  pay_validators-nonneg [] [] height time n n' h e = ground (arith, h, e)
  pay_validators-nonneg [] (fees ∷ shares) height time n n' h e = ground (arith, h, e)
  pay_validators-nonneg (account ∷ accounts) [] height time n n' h e = ground (arith, h, e)
  pay_validators-nonneg (account ∷ accounts) (fees ∷ shares) height time n n' h e =
      let (u, m, paid, rest) =
        bind-eq-done (pay_validator db sdk radix account fees height time n)
          (λ ended. pay_validators db sdk radix accounts (map pos shares) height time)
          (pay_first account accounts fees shares height time n n' e) in
      let t =
        transfer_of db sdk radix sdk.bk_paid_block_fees (some sdk.account_block_fees) account fees
          0 in
      let context = payment_context height time in
      let moved = on_world-eq_done (token_transfer sdk.accounts db radix t context) n m paid in
      let minus_kind : is_plus sdk.bk_paid_block_fees ≡ false =
        ground (arith, sdk.bk_paid_block_fees-even) in
      pay_validators-nonneg accounts shares height time m n'
        (token_transfer-balance_nonneg sdk.accounts db radix t context n.world m.world minus_kind
          moved sdk.account_block_fees h)
        rest

  length-accounts_of :
      (paid : List (Bytes × ℕ))
      → length (stakes_of db sdk radix paid) ≡ length (accounts_of db sdk radix paid)
  length-accounts_of [] = refl
  length-accounts_of ((account, stake) ∷ paid) = ap suc (length-accounts_of paid)

  staked_nonempty :
      (paid : List (Bytes × ℕ)) → 0 < sum (stakes_of db sdk radix paid) → (length paid == 0) ≡ false
  staked_nonempty [] h = ground (arith, h)
  staked_nonempty (account ∷ paid) h = ground arith

  -- Where validators with a stake have voted, and none of them is paid by the account of the block
  -- fees itself, the fees are paid out in full: that account is left with nothing.
  pub dispatch_fees_among_validators-all :
      (request : FinalizeRequest) (pending : ℕ) (paid : List (Bytes × ℕ)) (n n' : Node db)
      → balance_of db sdk radix n sdk.account_block_fees ≡ pos pending
      → paid_accounts db sdk radix request.votes n ≡ done paid n
      → 0 < sum (stakes_of db sdk radix paid)
      → IsOutside (accounts_of db sdk radix paid)
      → dispatch_fees_among_validators db sdk radix request n ≡ done tt n'
      → balance_of db sdk radix n' sdk.account_block_fees ≡ pos 0
  unfolding dispatch_fees_among_validators
  dispatch_fees_among_validators-all request pending paid n n' h found staked outside e =
      let stakes = stakes_of db sdk radix paid in
      let accounts = accounts_of db sdk radix paid in
      let shares = dispatch pending stakes request.height in
      elim (Bool-cases (pending == 0)) [
        | inl nothing ↦
            let same : n' ≡ n = ground (arith, h, nothing, e) in
            let zero_pending : pending ≡ 0 = ground (arith, nothing) in
            ap (λ m. balance_of db sdk radix m sdk.account_block_fees) same
            ∙ h
            ∙ ap pos zero_pending
        | inr fees ↦
            let paid_out : pay_validators db sdk radix accounts (map pos shares) request.height
                  request.time n
                ≡ done tt n' =
              ground (arith, h, fees, found, staked_nonempty paid staked, e) in
            let left =
              pay_validators-balance accounts shares request.height request.time n n'
                (length-dispatch pending stakes request.height ∙ length-accounts_of paid) outside
                paid_out in
            let enough = sum-dispatch_ge pending stakes request.height staked in
            let covered : pos 0 ≤ℤ balance_of db sdk radix n' sdk.account_block_fees =
              pay_validators-nonneg accounts shares request.height request.time n n'
                (ground (arith, h)) paid_out in
            let paid_off : balance_of db sdk radix n' sdk.account_block_fees
                ≡ pos pending +ℤ minus (sum shares) =
              left ∙ ap (λ b. b +ℤ minus (sum shares)) h in
            paid_off
            ∙ pos_minus-zero pending (sum shares) enough (subst (λ b. pos 0 ≤ℤ b) paid_off covered)
      ]
