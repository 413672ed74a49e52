-- ===== src/Accounts/Checks.antt =====
-- What a transfer needs before it is made (AccountTokenTransferHandler.ts).
use carmentis_node.Base.{
  ℕ, ◌+◌, ◌≡◌, refl, Bool, true, false, not, ◌&&◌, Option, none, some, Bytes, bytes_eq,
  if◌then◌else◌, arith, bytes_eq_iff, Bool-cases, inl, inr, ap,
}
use carmentis_node.Base.Effects.{done, failed, ◌>>◌}
use carmentis_node.Base.Ints.{ℤ, pos, ◌≤ℤ◌, ltb_ℤ, int_laws}
use carmentis_node.Database.Stores.{Database}
use carmentis_node.Accounts.Sdk.{Sdk, Radix, flip, is_plus}
use carmentis_node.Accounts.State.{World, load_account_information, holding_of}
use carmentis_node.Accounts.Transfer.{
  Transfer, Context, update_side, check_payer, check_payee, token_transfer, is_account_creation,
}
use carmentis_node.Accounts.Manager.{get_account_balance, is_account_defined}
use carmentis_node.Accounts.Balances.{token_transfer-balance, moved_by}

-- A debit that the balance covers, and a credit, leave it at zero or more.
debit_nonneg :
    (kind n : ℕ) (side : Option Bytes) (j : Bytes) (b : ℤ)
    → is_plus kind ≡ false
    → pos 0 ≤ℤ b
    → ((p : Bytes) → side ≡ some p → bytes_eq p j ≡ true → pos n ≤ℤ b)
    → pos 0 ≤ℤ moved_by kind n side j b
debit_nonneg kind n none j b odd h covered = h
debit_nonneg kind n (some p) j b odd h covered = elim (Bool-cases (bytes_eq p j)) [
  | inl c ↦ let low = covered p refl c in grind (arith, int_laws)
  | inr c ↦ grind (arith, int_laws)
]

credit_nonneg :
    (kind n : ℕ) (side : Option Bytes) (j : Bytes) (b : ℤ)
    → is_plus kind ≡ true
    → pos 0 ≤ℤ b
    → pos 0 ≤ℤ moved_by kind n side j b
credit_nonneg kind n none j b even h = h
credit_nonneg kind n (some p) j b even h = grind (arith, int_laws)

module _ (sdk : Sdk) (db : Database) (radix : Radix db) where
  -- The payer may send such a transfer and can spend the amount and the fees.
  unfoldable pub can_pay : World db → Transfer sdk → Bool
  unfolding load_account_information
  can_pay w t = elim t.payer_account [
    | none ↦ true
    | some payer ↦
        let information = load_account_information sdk db radix w payer in
        sdk.is_allowed_transfer information.kind t.kind
        && not (
            ltb_ℤ (sdk.spendable (holding_of sdk db radix information.state))
              (pos (t.amount_as_atomics + t.fees_as_atomics)))
  ]

  -- The payee may receive such a transfer, and exists unless the transfer creates it.
  unfoldable pub can_receive : World db → Transfer sdk → Bool
  unfolding load_account_information is_account_defined
  can_receive w t = elim t.payee_account [
    | none ↦ true
    | some payee ↦
        sdk.is_allowed_transfer (load_account_information sdk db radix w payee).kind (flip t.kind)
        && (if is_account_creation sdk db radix t
            then not (is_account_defined sdk db radix w payee)
            else is_account_defined sdk db radix w payee)
  ]

  -- The checks of a transfer come before any change: where one fails, the transfer fails in the
  -- world that it started from; where they pass, the two accounts are updated.
  pub token_transfer-checks :
      (t : Transfer sdk) (context : Context sdk) (w : World db)
      → token_transfer sdk db radix t context w ≡ (
          if can_pay w t && can_receive w t
          then (update_side sdk db radix t.kind t.payer_account t.payee_account t context
                >> update_side sdk db radix (flip t.kind) t.payee_account t.payer_account t context)
              w
          else failed w)
  unfolding token_transfer can_pay can_receive check_payer check_payee load_account_information
      is_account_defined
  token_transfer-checks t context w = ground arith

  can_pay-balance :
      (w : World db) (t : Transfer sdk) (p : Bytes)
      → t.payer_account ≡ some p
      → can_pay w t ≡ true
      → pos (t.amount_as_atomics + t.fees_as_atomics) ≤ℤ get_account_balance sdk db radix w p
  unfolding can_pay get_account_balance load_account_information
  can_pay-balance w t p e c =
      let h = holding_of sdk db radix (load_account_information sdk db radix w p).state in
      ground (arith, e, c, sdk.spendable-balance h)

  token_transfer-can_pay :
      (t : Transfer sdk) (context : Context sdk) (w w' : World db)
      → token_transfer sdk db radix t context w ≡ done tt w'
      → can_pay w t ≡ true
  token_transfer-can_pay t context w w' e = ground (arith, e, token_transfer-checks t context w)

  -- A transfer off one account leaves no account that had a balance of zero or more in debt: when
  -- it ends, every balance that was not negative is still not negative.
  pub token_transfer-balance_nonneg :
      (t : Transfer sdk) (context : Context sdk) (w w' : World db)
      → is_plus t.kind ≡ false
      → token_transfer sdk db radix t context w ≡ done tt w'
      → (j : Bytes) → pos 0 ≤ℤ get_account_balance sdk db radix w j
      → pos 0 ≤ℤ get_account_balance sdk db radix w' j
  token_transfer-balance_nonneg t context w w' minus_kind e j before =
      rw (token_transfer-balance sdk db radix t context w w' e j) (
        credit_nonneg (flip t.kind) t.amount_as_atomics t.payee_account j _
          (ground (arith, minus_kind))
          (debit_nonneg t.kind t.amount_as_atomics t.payer_account j _ minus_kind before
            (λ p is_payer same.
              let covered =
                can_pay-balance w t p is_payer (token_transfer-can_pay t context w w' e) in
              let same_balance : get_account_balance sdk db radix w p
                  ≡ get_account_balance sdk db radix w j =
                ap (get_account_balance sdk db radix w) ((bytes_eq_iff p j).0 same) in
              ground (arith, covered, same_balance))))
