-- ===== src/Accounts/Balances.antt =====
-- The balances after the transfers of AccountTokenTransferHandler.ts.
use carmentis_node.Base.{
  bytes_eq_iff, inr, inl, Bool-cases, ℕ, ◌+◌, ◌<◌, ◌≡◌, refl, Option, none, some, Bytes, bytes_eq,
  ◌==◌, if◌then◌else◌, arith, is_some, Bool-cases, inl, inr,
}
use carmentis_node.Base.Effects.{
  done, bind-eq-done, lift, lift-eq_done, throw_when-eq_done, lift-last,
}
use carmentis_node.Base.Ints.{pos, minus, ℤ, ◌+ℤ◌}
use carmentis_node.Database.Stores.{Table, table_id, Database}
use carmentis_node.Accounts.Sdk.{Sdk, AccountState, Escrow, Holding, Radix, flip}
use carmentis_node.Accounts.State.{World, get_escrow, load_account_information, holding_of}
use carmentis_node.Accounts.History.{entry_hash, new_entry, add_history_entry}
use carmentis_node.Accounts.Transfer.{
  Transfer, Context, signed_amount, receive_vesting, receive_escrow, add_tokens, update,
  update_side, check_payer, check_payee, token_transfer,
}
use carmentis_node.Accounts.Manager.{get_account_balance}
use carmentis_node.Accounts.Frames.{
  state_of_account, save_account_state-state_of, state_of-same_entries,
}

-- The effect of one side of a transfer on the balance of an account.
abbrev pub moved_by : ℕ → ℕ → Option Bytes → Bytes → ℤ → ℤ
moved_by kind amount none j balance = balance
moved_by kind amount (some a) j balance =
    if bytes_eq a j then balance +ℤ signed_amount kind amount else balance

-- The balance of an account after a payment: the payer loses the amount, the payee receives it.
abbrev pub paid_by : Bytes → Bytes → ℕ → Bytes → ℤ → ℤ
paid_by payer payee amount j balance =
    let left = if bytes_eq payer j then balance +ℤ minus amount else balance in
    if bytes_eq payee j then left +ℤ pos amount else left

module _ (sdk : Sdk) (db : Database) (radix : Radix db) where
  -- Adding tokens leaves every table alone but those of vesting and of escrows, and adds to the
  -- balance.
  abbrev pub IsAdded : World db → World db → ℤ → Holding sdk.Locks → Holding sdk.Locks → Type 0
  IsAdded w w' n h h' =
      ((u : Table) (j : Bytes)
        → table_id u < table_id Table.accounts_with_vesting_locks
        → db.get_raw w'.store u j ≡ db.get_raw w.store u j)
      × (h'.balance ≡ h.balance +ℤ n)

  receive_vesting-IsAdded :
      (a : Bytes) (n : ℤ) (v : Option sdk.Vesting) (h : Holding sdk.Locks) (w w' : World db)
      (h' : Holding sdk.Locks)
      → receive_vesting sdk db radix a n v h w ≡ done h' w'
      → IsAdded w w' n h h'
  unfolding receive_vesting table_id
  receive_vesting-IsAdded a n none h w w' h' e = cc
  receive_vesting-IsAdded a n (some v) h w w' h' e =
      let (r, added, rest) = lift-eq_done (sdk.add_vested_tokens h n v) _ e in
      (
        λ u j before.
            ground
              (arith, db.get-put w.store Table.accounts_with_vesting_locks u a j sdk.empty_record),
        ground (arith, sdk.add_vested_tokens-balance h h' n v),
      )

  abbrev escrow_of : Bytes → Bytes → sdk.EscrowTerms → Escrow
  escrow_of payer payee terms = record {
    payer_account = payer;
    payee_account = payee;
    agent_account = sdk.transfer_authorizer terms;
  }

  receive_escrow-IsAdded :
      (a : Bytes) (l : Option Bytes) (n : ℤ) (v : Option sdk.EscrowTerms) (h : Holding sdk.Locks)
      (w w' : World db) (h' : Holding sdk.Locks)
      → receive_escrow sdk db radix a l n v h w ≡ done h' w'
      → IsAdded w w' n h h'
  unfolding receive_escrow table_id
  receive_escrow-IsAdded a l n none h w w' h' e = cc
  receive_escrow-IsAdded a none n (some v) h w w' h' e = cc
  receive_escrow-IsAdded a (some p) n (some v) h w w' h' e =
      let (absent, later) =
        throw_when-eq_done (is_some (get_escrow sdk db radix w (sdk.escrow_identifier v))) {s = w} _
          e in
      let (r, added, rest) = lift-eq_done (sdk.add_escrowed_tokens h n v) _ later in
      (
        λ u j before. ground (
          arith,
          db.get-put w.store Table.escrows u (sdk.escrow_identifier v) j
              (sdk.encode_escrow (escrow_of p a v)),
        ),
        ground (arith, sdk.add_escrowed_tokens-balance h h' n v),
      )

  pub add_tokens-IsAdded :
      (kind : ℕ) (a : Bytes) (l : Option Bytes) (amount : ℕ) (v : Option sdk.Vesting)
      (t : Option sdk.EscrowTerms) (h : Holding sdk.Locks) (w w' : World db)
      (h' : Holding sdk.Locks)
      → add_tokens sdk db radix kind a l amount v t h w ≡ done h' w'
      → IsAdded w w' (signed_amount kind amount) h h'
  unfolding add_tokens
  add_tokens-IsAdded kind a l amount v t h w w' h' e =
      elim (Bool-cases (kind == sdk.bk_received_vesting)) [
        | inl c ↦
            receive_vesting-IsAdded a (signed_amount kind amount) v h w w' h' (ground (arith, c, e))
        | inr c ↦ elim (Bool-cases (kind == sdk.bk_received_escrow)) [
          | inl d ↦
              receive_escrow-IsAdded a l (signed_amount kind amount) t h w w' h'
                (ground (arith, c, d, e))
          | inr d ↦
              let spent : lift (sdk.add_spendable_tokens h (signed_amount kind amount)) w
                  ≡ done h' w' =
                ground (arith, c, d, e) in
              let (r, same) =
                lift-last (sdk.add_spendable_tokens h (signed_amount kind amount)) spent in
              (
                λ u j before. ground (arith, same),
                sdk.add_spendable_tokens-balance h h' (signed_amount kind amount) r,
              )
        ]
      ]

  -- One state is replaced: its balance and its height are moved, the other accounts keep theirs.
  abbrev IsMoved : World db → World db → Bytes → ℤ → Type 0
  IsMoved w w' a n =
      (s : AccountState sdk.Locks) × (s.balance ≡ (state_of_account sdk db radix w a).balance +ℤ n)
      × (s.height ≡ (state_of_account sdk db radix w a).height + 1)
      × ((j : Bytes)
          → state_of_account sdk db radix w' j
            ≡ (if bytes_eq a j then s else state_of_account sdk db radix w j))

  update-IsMoved :
      (kind : ℕ) (a : Bytes) (l : Option Bytes) (amount : ℕ) (context : Context sdk)
      (v : Option sdk.Vesting) (t : Option sdk.EscrowTerms) (w w' : World db)
      → update sdk db radix kind a l amount context v t w ≡ done tt w'
      → IsMoved w w' a (signed_amount kind amount)
  unfolding update add_history_entry table_id state_of_account load_account_information
  update-IsMoved kind a l amount context v t w w' e =
      let state = state_of_account sdk db radix w a in
      let start = holding_of sdk db radix state in
      let (h, middle, added, rest) =
        bind-eq-done (add_tokens sdk db radix kind a l amount v t start w) _ e in
      let (kept, balance) = add_tokens-IsAdded kind a l amount v t start w middle h added in
      let moved = record state {
        height = state.height + 1;
        balance = h.balance;
        locks = h.locks;
      } in
      let entry =
        new_entry sdk db radix moved kind l amount context.chain_reference context.timestamp
          context.public_reference context.private_reference in
      let hash = entry_hash sdk db radix a entry in
      let saved = record moved { last_history_hash = hash } in
      let entered = record middle {
        store = db.put_raw middle.store Table.account_history hash (sdk.encode_entry entry);
      } in
      (
        saved,
        balance,
        refl,
        λ j. ground (
          arith,
          save_account_state-state_of sdk db radix a saved entered w' rest j,
          state_of-same_entries sdk db radix w middle j (kept Table.account_state j (omega arith)),
          state_of-same_entries sdk db radix middle entered j (
              ground (
                arith,
                db.get-put middle.store Table.account_history Table.account_state hash j
                    (sdk.encode_entry entry),
              )),
        ),
      )

  update_side-balance :
      (kind : ℕ) (side linked : Option Bytes) (t : Transfer sdk) (context : Context sdk)
      (w w' : World db)
      → update_side sdk db radix kind side linked t context w ≡ done tt w'
      → (j : Bytes)
      → get_account_balance sdk db radix w' j
        ≡ moved_by kind t.amount_as_atomics side j (get_account_balance sdk db radix w j)
  unfolding update_side get_account_balance load_account_information state_of_account
  update_side-balance kind none linked t context w w' e j = ground (arith, e)
  update_side-balance kind (some a) linked t context w w' e j =
      let (s, balance, height, after) =
        update-IsMoved kind a linked t.amount_as_atomics context t.vesting_parameters
          t.escrow_parameters w w' e in
      ground (arith, after j, balance, bytes_eq_iff a j)

  check_payer-eq_done :
      (t : Transfer sdk) (w w' : World db) → check_payer sdk db radix t w ≡ done tt w' → w ≡ w'
  unfolding check_payer
  check_payer-eq_done t w w' e = ground (arith, e)

  check_payee-eq_done :
      (t : Transfer sdk) (w w' : World db) → check_payee sdk db radix t w ≡ done tt w' → w ≡ w'
  unfolding check_payee
  check_payee-eq_done t w w' e = ground (arith, e)

  -- A transfer that ends moves the amount off the payer and onto the payee, where they are given,
  -- and leaves the balance of every other account. (The payer's kind of transfer takes, the
  -- payee's adds; a payer that is its own payee keeps its balance so far.)
  pub token_transfer-balance :
      (t : Transfer sdk) (context : Context sdk) (w w' : World db)
      → token_transfer sdk db radix t context w ≡ done tt w'
      → (j : Bytes)
      → get_account_balance sdk db radix w' j
        ≡ moved_by (flip t.kind) t.amount_as_atomics t.payee_account j (
            moved_by t.kind t.amount_as_atomics t.payer_account j
              (get_account_balance sdk db radix w j))
  unfolding token_transfer
  token_transfer-balance t context w w' e j =
      let (u1, w1, payer_checked, e1) = bind-eq-done (check_payer sdk db radix t w) _ e in
      let (u2, w2, payee_checked, e2) = bind-eq-done (check_payee sdk db radix t w1) _ e1 in
      let (u3, w3, debited, credited) =
        bind-eq-done (update_side sdk db radix t.kind t.payer_account t.payee_account t context w2)
          _ e2 in
      ground (
        arith,
        check_payer-eq_done t w w1 payer_checked,
        check_payee-eq_done t w1 w2 payee_checked,
        update_side-balance t.kind t.payer_account t.payee_account t context w2 w3 debited j,
        update_side-balance (flip t.kind) t.payee_account t.payer_account t context w3 w' credited
            j,
      )
