-- ===== src/Accounts/Settlements.antt =====
-- The funds of the escrows (AccountEscrowHandler.ts).
use carmentis_node.Base.{
  ok, ◌%◌, ◌+◌, sym, inr, inl, Option-cases, ℕ, ◌≡◌, refl, Bool, true, false, not, some, Bytes,
  bytes_eq, if◌then◌else◌, arith, bytes_eq_iff,
}
use carmentis_node.Base.Effects.{
  pure, done, failed, bind, bind-eq-done, throw_when-eq_done, lift-eq_done,
}
use carmentis_node.Base.Ints.{ℤ}
use carmentis_node.Database.Stores.{Table, table_id, Database}
use carmentis_node.Accounts.Sdk.{Holding, Sdk, Escrow, Radix}
use carmentis_node.Accounts.State.{
  delete, World, load_account_information, save_account_state, holding_of, get_escrow,
}
use carmentis_node.Accounts.Transfer.{token_transfer}
use carmentis_node.Accounts.Escrow.{settle, release, refund, plain, escrow_settlement}
use carmentis_node.Accounts.Staking.{with_locks}
use carmentis_node.Accounts.Manager.{get_account_balance}
use carmentis_node.Accounts.Frames.{
  state_of_account, save_account_state-state_of, state_of-same_entries,
}
use carmentis_node.Accounts.Balances.{paid_by, token_transfer-balance}

module _ (sdk : Sdk) (db : Database) (radix : Radix db) where
  -- The amount is that of the lock of the escrow, which the payee's account holds.
  abbrev pub IsUnlocked : Escrow → Bytes → ℕ → World db → Type 0
  IsUnlocked escrow id amount w =
      let state = (load_account_information sdk db radix w escrow.payee_account).state in
      (unlocked : Holding sdk.Locks) × (sdk.remove_escrow_lock (holding_of sdk db radix state) id
        ≡ ok (amount, unlocked))

  -- The lock of an escrow is removed: the account's balance stays, and so do the others.
  release_lem :
      (escrow : Escrow) (id : Bytes) (amount : ℕ) (w w' : World db)
      → release sdk db radix escrow id w ≡ done amount w'
      → IsUnlocked escrow id amount w
        × ((j : Bytes)
            → get_account_balance sdk db radix w' j ≡ get_account_balance sdk db radix w j)
  unfolding release state_of_account load_account_information get_account_balance
  release_lem escrow id amount w w' e =
      let state = (load_account_information sdk db radix w escrow.payee_account).state in
      let ((amount', h), removed, e1) =
        lift-eq_done (sdk.remove_escrow_lock (holding_of sdk db radix state) id) {s = w} _ e in
      let saved = with_locks sdk db radix state h in
      let (u, final, stored, ended) =
        bind-eq-done (save_account_state sdk db radix escrow.payee_account saved w) _ e1 in
      (
        (h, ground (arith, removed, ended)),
        λ j. ground (
          arith,
          ended,
          save_account_state-state_of sdk db radix escrow.payee_account saved w final stored j,
          bytes_eq_iff escrow.payee_account j,
        ),
      )

  -- A settlement of an escrow that does not exist, or by another account than the agent of the
  -- escrow, fails and changes nothing.
  pub escrow_settlement-refused :
      (account id : Bytes) (confirmed : Bool) (timestamp : ℕ) (r : sdk.ChainReference)
      (w : World db)
      → ((escrow : Escrow)
          → get_escrow sdk db radix w id ≡ some escrow
          → bytes_eq account escrow.agent_account ≡ false)
      → escrow_settlement sdk db radix account id confirmed timestamp r w ≡ failed w
  unfolding escrow_settlement settle
  escrow_settlement-refused account id confirmed timestamp r w h =
      elim (Option-cases (get_escrow sdk db radix w id)) [
        | inl e ↦ ground (arith, e)
        | inr (escrow, e) ↦ ground (arith, e, h escrow e)
      ]

  -- What the end of an escrow does to the balances: nothing when it is confirmed, and otherwise
  -- the amount goes from the payee back to the payer.
  abbrev pub settled : Bool → Escrow → ℕ → Bytes → ℤ → ℤ
  settled true escrow amount j balance = balance
  settled false escrow amount j balance =
      paid_by escrow.payee_account escrow.payer_account amount j balance

  finish-balance :
      (confirmed : Bool) (escrow : Escrow) (id : Bytes) (amount timestamp : ℕ)
      (r : sdk.ChainReference) (w w' : World db)
      → bind
          ((if confirmed
              then pure tt
              else token_transfer sdk db radix
                  (refund sdk db radix sdk.bk_sent_escrow_refund escrow amount)
                  (plain sdk db radix r timestamp))
            w)
          (λ u. delete sdk db radix Table.escrows id)
        ≡ done tt w'
      → (j : Bytes)
      → get_account_balance sdk db radix w' j
        ≡ settled confirmed escrow amount j (get_account_balance sdk db radix w j)
  unfolding table_id get_account_balance state_of_account
  finish-balance true escrow id amount timestamp r w w' e j = ground (
    arith,
    e,
    state_of-same_entries sdk db radix w w' j
        (ground (arith, e, db.get-del w.store Table.escrows Table.account_state id j refl)),
  )
  finish-balance false escrow id amount timestamp r w w' e j =
      let back = refund sdk db radix sdk.bk_sent_escrow_refund escrow amount in
      let (u, middle, sent, deleted) =
        bind-eq-done (token_transfer sdk db radix back (plain sdk db radix r timestamp) w) _ e in
      let even = sdk.bk_sent_escrow_refund-even in
      let odd : (sdk.bk_sent_escrow_refund + 1) % 2 ≡ 1 = omega (arith, even) in
      ground (
        arith,
        even,
        odd,
        token_transfer-balance sdk db radix back (plain sdk db radix r timestamp) w middle sent j,
        state_of-same_entries sdk db radix middle w' j (
            ground (
              arith,
              deleted,
              db.get-del middle.store Table.escrows Table.account_state id j refl,
            )),
      )

  settle-balance :
      (escrow : Escrow) (account id : Bytes) (confirmed : Bool) (timestamp : ℕ)
      (r : sdk.ChainReference) (w w' : World db)
      → settle sdk db radix escrow account id confirmed timestamp r w ≡ done tt w'
      → (account ≡ escrow.agent_account)
        × (amount : ℕ) × IsUnlocked escrow id amount w
        × ((j : Bytes)
            → get_account_balance sdk db radix w' j
              ≡ settled confirmed escrow amount j (get_account_balance sdk db radix w j))
  unfolding settle
  settle-balance escrow account id confirmed timestamp r w w' e =
      let (is_agent, e1) =
        throw_when-eq_done (not (bytes_eq account escrow.agent_account)) {s = w} _ e in
      let (amount, middle, released, e2) = bind-eq-done (release sdk db radix escrow id w) _ e1 in
      (
        ground (arith, is_agent, bytes_eq_iff account escrow.agent_account),
        amount,
        (release_lem escrow id amount w middle released).0,
        λ j.
            rw (sym ((release_lem escrow id amount w middle released).1 j))
              (finish-balance confirmed escrow id amount timestamp r middle w' e2 j),
      )

  -- A settlement that ends was made by the agent of an escrow that exists. Confirmed, it leaves
  -- every balance as it is; refused, it moves the amount of the lock that the payee holds for the
  -- escrow from the payee to the payer, and leaves every other balance as it is.
  pub escrow_settlement-balance :
      (account id : Bytes) (confirmed : Bool) (timestamp : ℕ) (r : sdk.ChainReference)
      (w w' : World db)
      → escrow_settlement sdk db radix account id confirmed timestamp r w ≡ done tt w'
      → (escrow : Escrow) × (amount : ℕ) × (get_escrow sdk db radix w id ≡ some escrow)
        × (account ≡ escrow.agent_account)
        × IsUnlocked escrow id amount w
        × ((j : Bytes)
            → get_account_balance sdk db radix w' j
              ≡ settled confirmed escrow amount j (get_account_balance sdk db radix w j))
  unfolding escrow_settlement
  escrow_settlement-balance account id confirmed timestamp r w w' e =
      elim (Option-cases (get_escrow sdk db radix w id)) [
        | inl absent ↦ cc (e, absent)
        | inr (escrow, found) ↦
            let run : settle sdk db radix escrow account id confirmed timestamp r w ≡ done tt w' =
              ground (arith, e, found) in
            let (is_agent, amount, unlocked, balances) =
              settle-balance escrow account id confirmed timestamp r w w' run in
            (escrow, amount, found, is_agent, unlocked, balances)
      ]
