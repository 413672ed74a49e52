-- ===== src/Accounts/Escrow.antt =====
-- The end of an escrow (AccountEscrowHandler.ts).
use carmentis_node.Base.{
  ℕ, Bool, not, Option, none, some, List, [], ◌∷◌, Bytes, bytes_eq, ltb, if◌then◌else◌,
}
use carmentis_node.Base.Effects.{Action, pure, throw, throw_when, lift, read, ◌>>=◌, ◌>>◌}
use carmentis_node.Database.Stores.{Table, Database}
use carmentis_node.Accounts.Sdk.{Sdk, Escrow, Radix}
use carmentis_node.Accounts.State.{
  World, load_account_information, save_account_state, holding_of, get_escrow, delete,
}
use carmentis_node.Accounts.Transfer.{Transfer, Context, token_transfer}

module _ (sdk : Sdk) (db : Database) (radix : Radix db) where
  -- The lock of an escrow is removed from the payee: its amount.
  unfoldable pub release : Escrow → Bytes → Action (World db) ℕ
  release escrow escrow_identifier = do
    information ← read (λ w. load_account_information sdk db radix w escrow.payee_account)
    (amount, h) ←
        lift (sdk.remove_escrow_lock (holding_of sdk db radix information.state) escrow_identifier)
    save_account_state sdk db radix escrow.payee_account
        (record information.state { locks = h.locks })
    pure amount

  -- The transfer that sends the funds of an escrow back to the payer.
  abbrev pub refund : ℕ → Escrow → ℕ → Transfer sdk
  refund kind escrow amount = record {
    kind = kind;
    payer_account = some escrow.payee_account;
    payee_account = some escrow.payer_account;
    amount_as_atomics = amount;
    fees_as_atomics = 0;
    vesting_parameters = none;
    escrow_parameters = none;
  }

  -- `tokenTransfer` without references.
  abbrev pub plain : sdk.ChainReference → ℕ → Context sdk
  plain chain_reference timestamp = record {
    chain_reference = chain_reference;
    timestamp = timestamp;
    public_reference = [];
    private_reference = [];
  }

  -- `escrowSettlement`, once the escrow is found
  unfoldable pub settle :
      Escrow → Bytes → Bytes → Bool → ℕ → sdk.ChainReference → Action (World db) (Unit {0})
  settle escrow account escrow_identifier confirmed timestamp chain_reference = do
    throw_when (not (bytes_eq account escrow.agent_account))
    amount ← release escrow escrow_identifier
    if confirmed
        then pure tt
        else token_transfer sdk db radix (refund sdk.bk_sent_escrow_refund escrow amount)
            (plain chain_reference timestamp)
    delete sdk db radix Table.escrows escrow_identifier

  -- `escrowSettlement`
  unfoldable pub escrow_settlement :
      Bytes → Bytes → Bool → ℕ → sdk.ChainReference → Action (World db) (Unit {0})
  escrow_settlement account escrow_identifier confirmed timestamp chain_reference = do
    found ← read (λ w. get_escrow sdk db radix w escrow_identifier)
    elim found [
      | none ↦ throw
      | some escrow ↦ settle escrow account escrow_identifier confirmed timestamp chain_reference
    ]

  -- `escrowLocks.find(lock => …)`
  unfoldable pub find_lock : Bytes → List sdk.EscrowTerms → Option sdk.EscrowTerms
  find_lock escrow_identifier [] = none
  find_lock escrow_identifier (terms ∷ locks) =
      if bytes_eq (sdk.escrow_identifier terms) escrow_identifier
      then some terms
      else find_lock escrow_identifier locks

  abbrev pub has_expired : sdk.EscrowTerms → ℕ → Bool
  has_expired terms timestamp =
      ltb (sdk.add_days_to_timestamp (sdk.start_timestamp terms) (sdk.duration_days terms))
        timestamp

  -- `updateExpiredEscrow`
  unfoldable pub update_expired_escrow : Bytes → ℕ → ℕ → Action (World db) (Unit {0})
  update_expired_escrow escrow_identifier timestamp block_height = do
    found ← read (λ w. get_escrow sdk db radix w escrow_identifier)
    elim found [
      | none ↦ throw
      | some escrow ↦ do
        information ← read (λ w. load_account_information sdk db radix w escrow.payee_account)
        elim (find_lock escrow_identifier
            (sdk.escrow_locks (holding_of sdk db radix information.state))) [
              | none ↦ throw
              | some terms ↦
                  if has_expired terms timestamp
                  then (do
                    amount ← release escrow (sdk.escrow_identifier terms)
                    token_transfer sdk db radix (refund sdk.bk_sent_expired_escrow escrow amount)
                        (plain (sdk.block_reference block_height) timestamp)
                    delete sdk db radix Table.escrows escrow_identifier)
                  else pure tt
            ]
    ]
