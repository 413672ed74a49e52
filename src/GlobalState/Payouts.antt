-- ===== src/GlobalState/Payouts.antt =====
-- What the payment of the fees leaves alone (`dispatchFeesAmongValidators` of GlobalStateUpdater.ts).
use carmentis_node.Base.{
  ◌-◌, Result-cases, Option, if◌then◌else◌, ℕ, ◌≡◌, sym, ap, ◌∙◌, inl, inr, none, some, List, [],
  ◌∷◌, Bytes, bytes_eq, length, ◌==◌, arith, Bool-cases, Option-cases,
}
use carmentis_node.Base.Effects.{done, Action, Outcome-cases, bind-eq-done, done_injective, pure}
use carmentis_node.Base.Ints.{ℤ, pos, pos_part, ltb_ℤ}
use carmentis_node.Database.Stores.{Database}
use carmentis_node.Accounts.Sdk.{Radix}
use carmentis_node.Accounts.State.{World}
use carmentis_node.Accounts.Manager.{get_account_balance, get_staked_amount}
use carmentis_node.GlobalState.Types.{Node, NodeSdk}
use carmentis_node.GlobalState.State.{on_world, get_validator_set}
use carmentis_node.GlobalState.Blocks.{
  Vote, FinalizeRequest, paid_account, paid_accounts, pay_validator, pay_validators,
  dispatch_fees_among_validators,
}
use carmentis_node.Accounts.Transfer.{token_transfer}
use carmentis_node.GlobalState.Sections.{transfer_of}

module _ (db : Database) (sdk : NodeSdk db) (radix : Radix db) where
  on_world-updater :
      {A : Type 0} (act : Action (World db) A) (n n' : Node db) {a : A}
      → on_world act n ≡ done a n'
      → n'.updater ≡ n.updater
  on_world-updater act n n' e = elim (Outcome-cases (act n.world)) [
    | inl (a, w, h) ↦ ground (arith, h, e)
    | inr (w, h) ↦ ground (arith, h, e)
  ]

  pay_validator-updater :
      (account : Bytes) (fees height time : ℕ) (n n' : Node db)
      → pay_validator db sdk radix account fees height time n ≡ done tt n'
      → n'.updater ≡ n.updater
  unfolding pay_validator
  pay_validator-updater account fees height time n n' e =
      on_world-updater
        (token_transfer sdk.accounts db radix
          (transfer_of db sdk radix sdk.bk_paid_block_fees (some sdk.account_block_fees) account
            fees 0)
          (record {
            chain_reference = sdk.accounts.block_reference (height - 1);
            timestamp = time;
            public_reference = [];
            private_reference = [];
          }))
        n n' e

  pay_validators-updater :
      (accounts : List Bytes) (shares : List ℤ) (height time : ℕ) (n n' : Node db)
      → pay_validators db sdk radix accounts shares height time n ≡ done tt n'
      → n'.updater ≡ n.updater
  unfolding pay_validators
  pay_validators-updater [] [] height time n n' e = ap (λ m. m.updater) (sym (done_injective e).1)
  pay_validators-updater [] (fees ∷ shares) height time n n' e =
      ap (λ m. m.updater) (sym (done_injective e).1)
  pay_validators-updater (account ∷ accounts) [] height time n n' e =
      ap (λ m. m.updater) (sym (done_injective e).1)
  pay_validators-updater (account ∷ accounts) (fees ∷ shares) height time n n' e =
      let (u, m, paid, rest) =
        bind-eq-done
          ((if ltb_ℤ fees (pos 0)
              then pure tt
              else pay_validator db sdk radix account (pos_part fees) height time)
            n)
          (λ ended. pay_validators db sdk radix accounts shares height time) e in
      let first : m.updater ≡ n.updater = elim (Bool-cases (ltb_ℤ fees (pos 0))) [
        | inl c ↦ ground (arith, c, paid)
        | inr c ↦
            pay_validator-updater account (pos_part fees) height time n m (ground (arith, c, paid))
      ] in
      pay_validators-updater accounts shares height time m n' rest ∙ first

  -- The loop over the votes changes nothing.
  paid_account-kept :
      (vote : Vote) (n n' : Node db) (account : Option (Bytes × ℕ))
      → paid_account db sdk radix vote n ≡ done account n'
      → n' ≡ n
  unfolding paid_account
  paid_account-kept vote n n' account e = elim (Option-cases vote.validator) [
    | inl h ↦ ground (arith, h, e)
    | inr (address, h) ↦ elim (Option-cases (get_validator_set db sdk n.world.store address)) [
      | inl g ↦ ground (arith, h, g, e)
      | inr (node, g) ↦
          elim (Bool-cases (bytes_eq node.validator_node_hash sdk.accounts.null_hash)) [
            | inl c ↦ ground (arith, h, g, c, e)
            | inr c ↦ elim (Result-cases (sdk.load_validator_node n node.validator_node_hash)) [
              | inl l ↦ ground (arith, h, g, c, l, e)
              | inr (vn, l) ↦ elim (Result-cases vn.organization_account) [
                | inl o ↦ ground (arith, h, g, c, l, o, e)
                | inr (a, o) ↦
                    elim (Result-cases (get_staked_amount sdk.accounts db radix n.world a)) [
                      | inl t ↦ ground (arith, h, g, c, l, o, t, e)
                      | inr (amount, t) ↦ ground (arith, h, g, c, l, o, t, e)
                    ]
              ]
            ]
          ]
    ]
  ]

  paid_accounts-kept :
      (votes : List Vote) (n n' : Node db) (paid : List (Bytes × ℕ))
      → paid_accounts db sdk radix votes n ≡ done paid n'
      → n' ≡ n
  unfolding paid_accounts
  paid_accounts-kept [] n n' paid e = sym (done_injective e).1
  paid_accounts-kept (vote ∷ votes) n n' paid e =
      let (account, m, found, e1) =
        bind-eq-done ((if vote.is_commit then paid_account db sdk radix vote else pure none) n) _
          e in
      let (accounts, k, others, e2) = bind-eq-done (paid_accounts db sdk radix votes m) _ e1 in
      let first : m ≡ n = elim (Bool-cases vote.is_commit) [
        | inl c ↦ paid_account-kept vote n m account (ground (arith, c, found))
        | inr c ↦ ground (arith, c, found)
      ] in
      sym (done_injective e2).1 ∙ paid_accounts-kept votes m k accounts others ∙ first

  -- A dispatch of the fees that ends leaves the statistics of the block as they were.
  pub dispatch-updater :
      (request : FinalizeRequest) (n n' : Node db)
      → dispatch_fees_among_validators db sdk radix request n ≡ done tt n'
      → n'.updater ≡ n.updater
  unfolding dispatch_fees_among_validators
  dispatch-updater request n n' e =
      let pending =
        pos_part (get_account_balance sdk.accounts db radix n.world sdk.account_block_fees) in
      elim (Bool-cases (pending == 0)) [
        | inl c ↦ ground (arith, c, e)
        | inr c ↦
            let (paid, m, found, e1) =
              bind-eq-done (paid_accounts db sdk radix request.votes n) _ (rw c at e) in
            let same = ap (λ k. k.updater) (paid_accounts-kept request.votes n m paid found) in
            elim (Bool-cases (length paid == 0)) [
              | inl none_paid ↦ ground (arith, none_paid, e1, same)
              | inr some_paid ↦
                  pay_validators-updater _ _ request.height request.time m n' (rw some_paid at e1)
                  ∙ same
            ]
      ]
