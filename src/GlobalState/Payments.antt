-- ===== src/GlobalState/Payments.antt =====
-- The fees that microblocks pay, and that are dispatched among the validators
-- (`updateGlobalStateOnMicroblock` and `dispatchFeesAmongValidators` of GlobalStateUpdater.ts).
use carmentis_node.Base.{
  ℕ, ◌+◌, ◌%◌, ◌≡◌, refl, sym, ap, ◌∙◌, false, inl, inr, some, [], Bytes, ◌==◌, if◌then◌else◌,
  arith, Bool-cases,
}
use carmentis_node.Base.Effects.{done_injective, pure, Action, Outcome-cases, done, bind-eq-done}
use carmentis_node.Base.Ints.{ℤ}
use carmentis_node.Database.Stores.{table_id, Table, Database}
use carmentis_node.Accounts.Sdk.{Radix}
use carmentis_node.Accounts.State.{World}
use carmentis_node.Accounts.Transfer.{Context, token_transfer}
use carmentis_node.Accounts.Manager.{get_account_balance}
use carmentis_node.Accounts.Balances.{paid_by, token_transfer-balance}
use carmentis_node.Accounts.Frames.{state_of_account, state_of-same_entries}
use carmentis_node.GlobalState.Types.{Microblock, VirtualBlockchain, CometParameters, Node, NodeSdk}
use carmentis_node.GlobalState.State.{on_world, with_store}
use carmentis_node.GlobalState.Sections.{transfer_of}
use carmentis_node.GlobalState.Microblocks.{
  update_global_state_on_microblock, index_validator_node, fees_to_pay, handle_update, pay_fees,
  update_statistics, store_all, apply_microblock,
}
use carmentis_node.GlobalState.Writers.{is_protocol_creation, has_section}
use carmentis_node.GlobalState.Checks.{update_global_state_on_microblock-cases, IsPayable}
use carmentis_node.GlobalState.Frames.{
  HasAccountsOf, put_raw-HasAccountsOf, store_all-HasAccountsOf,
}

-- A call of the account manager that ends.
pub on_world-eq_done :
    {db : Database} (act : Action (World db) (Unit {0})) (n n' : Node db)
    → on_world act n ≡ done tt n'
    → act n.world ≡ done tt n'.world
on_world-eq_done act n n' e = elim (Outcome-cases (act n.world)) [
  | inl (u, w, h) ↦ ground (arith, h, e)
  | inr (w, h) ↦ ground (arith, h, e)
]

module _ (db : Database) (sdk : NodeSdk db) (radix : Radix db) where
  abbrev pub balance_of : Node db → Bytes → ℤ
  balance_of n j = get_account_balance sdk.accounts db radix n.world j

  -- A transfer of a kind that takes from its payer.
  pub payment-balance :
      (kind : ℕ) (payer payee : Bytes) (amount : ℕ) (context : Context sdk.accounts)
      (n n' : Node db)
      → kind % 2 ≡ 0
      → on_world
          (token_transfer sdk.accounts db radix
            (transfer_of db sdk radix kind (some payer) payee amount 0)
            context)
          n
        ≡ done tt n'
      → (j : Bytes) → balance_of n' j ≡ paid_by payer payee amount j (balance_of n j)
  payment-balance kind payer payee amount context n n' even e j =
      let t = transfer_of db sdk radix kind (some payer) payee amount 0 in
      let moved =
        token_transfer-balance sdk.accounts db radix t context n.world n'.world
          (on_world-eq_done (token_transfer sdk.accounts db radix t context) n n' e) j in
      let odd : (kind + 1) % 2 ≡ 1 = omega (arith, even) in ground (arith, moved, even, odd)

  balance-HasAccountsOf :
      (n n' : Node db) (j : Bytes)
      → HasAccountsOf db sdk radix n.world.store n'.world.store
      → balance_of n' j ≡ balance_of n j
  unfolding get_account_balance state_of_account
  balance-HasAccountsOf n n' j same =
      ap (λ s. s.balance) (state_of-same_entries sdk.accounts db radix n.world n'.world j (same j))

  index-balance :
      (vb : VirtualBlockchain) (n n' : Node db) (j : Bytes)
      → (if vb.height == 1 then index_validator_node db sdk radix vb else pure tt) n ≡ done tt n'
      → balance_of n' j ≡ balance_of n j
  unfolding table_id
  index-balance vb n n' j e =
      let indexed =
        put_raw-HasAccountsOf db sdk radix n.world.store Table.validator_index vb.id [] refl in
      let with_index = with_store n (db.put_raw n.world.store Table.validator_index vb.id []) in
      let kept = balance-HasAccountsOf n with_index j indexed in
      elim (Bool-cases (vb.height == 1)) [
        | inr later ↦ ground (arith, later, e)
        | inl first ↦ elim (Bool-cases (vb.kind == sdk.vb_validator_node)) [
          | inr other ↦ ground (arith, first, other, e)
          | inl node ↦
              let same : n' ≡ with_index = ground (arith, first, node, e) in
              ap (λ m. balance_of m j) same ∙ kept
        ]
      ]

  update_statistics-world :
      (vb : VirtualBlockchain) (mb : Microblock) (fees : ℕ) (transaction : Bytes) (n n' : Node db)
      → update_statistics db sdk radix vb mb fees transaction n ≡ done tt n'
      → n'.world ≡ n.world
  unfolding update_statistics
  update_statistics-world vb mb fees transaction n n' e =
      ap (λ m. m.world) (sym (done_injective e).1)

  -- What a microblock does to the balances after its handler has ended: its payer pays the fees to
  -- the account of the block fees, and no other balance changes.
  apply_microblock-paid :
      (payer : Bytes) (vb : VirtualBlockchain) (mb : Microblock) (p : CometParameters)
      (transaction : Bytes) (n n' : Node db)
      → apply_microblock db sdk radix payer vb mb p transaction n ≡ done tt n'
      → (handled : Node db) × (handle_update db sdk radix vb mb (fees_to_pay mb) n
          ≡ done tt handled)
        × ((j : Bytes)
            → balance_of n' j
              ≡ paid_by payer sdk.account_block_fees (fees_to_pay mb) j (balance_of handled j))
  unfolding apply_microblock pay_fees
  apply_microblock-paid payer vb mb p transaction n n' e =
      let (u1, handled, h, e1) =
        bind-eq-done (handle_update db sdk radix vb mb (fees_to_pay mb) n) _ e in
      let (u2, paid, fees, e2) =
        bind-eq-done (pay_fees db sdk radix payer mb p.block_timestamp handled) _ e1 in
      let (u3, counted, statistics, e3) =
        bind-eq-done (update_statistics db sdk radix vb mb (fees_to_pay mb) transaction paid) _
          e2 in
      let (u4, stored, all, e4) =
        bind-eq-done (store_all db sdk radix vb mb transaction counted) _ e3 in
      let same =
        update_statistics-world vb mb (fees_to_pay mb) transaction paid counted statistics in
      (
        handled,
        h,
        λ j.
            index-balance vb stored n' j e4
            ∙ balance-HasAccountsOf counted stored j
                (store_all-HasAccountsOf db sdk radix vb mb transaction counted stored all)
            ∙ ap (λ w. get_account_balance sdk.accounts db radix w j) same
            ∙ payment-balance sdk.bk_paid_tx_fees payer sdk.account_block_fees (fees_to_pay mb) _
                handled paid sdk.bk_paid_tx_fees-even fees j,
      )

  -- A microblock that is accepted and not skipped has passed the checks, and its payer pays the
  -- fees, once: after what its sections do, that account loses the fees, the account of the block
  -- fees receives them, and every other balance stays.
  pub update_global_state_on_microblock-balance :
      (payer : Bytes) (vb : VirtualBlockchain) (mb : Microblock) (p : CometParameters)
      (transaction : Bytes) (n n' : Node db)
      → mb.fees_payer_account ≡ some payer
      → has_section is_protocol_creation mb.sections ≡ false
      → update_global_state_on_microblock db sdk radix vb mb p transaction n ≡ done tt n'
      → IsPayable db sdk radix payer vb mb n
        × (handled : Node db) × (handle_update db sdk radix vb mb (fees_to_pay mb) n
            ≡ done tt handled)
        × ((j : Bytes)
            → balance_of n' j
              ≡ paid_by payer sdk.account_block_fees (fees_to_pay mb) j (balance_of handled j))
  update_global_state_on_microblock-balance payer vb mb p transaction n n' h other e =
      elim (update_global_state_on_microblock-cases db sdk radix payer vb mb p transaction n h
        other) [
          | inl refused ↦ ground (arith, refused, e)
          | inr (payable, applied) ↦
              let (handled, updated, paid) =
                apply_microblock-paid payer vb mb p transaction n n' (sym applied ∙ e) in
              (payable, handled, updated, paid)
        ]
