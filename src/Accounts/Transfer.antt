-- ===== src/Accounts/Transfer.antt =====
-- The transfers between accounts (AccountTokenTransferHandler.ts).
use carmentis_node.Base.{
  ℕ, ◌+◌, Bool, true, not, Option, none, some, Bytes, ◌==◌, if◌then◌else◌, is_some,
}
use carmentis_node.Base.Effects.{Action, pure, throw, throw_when, lift, read, ◌>>=◌, ◌>>◌}
use carmentis_node.Base.Ints.{ℤ, pos, minus, ltb_ℤ}
use carmentis_node.Database.Stores.{Database}
use carmentis_node.Accounts.Sdk.{Sdk, Holding, Radix, is_plus, flip}
use carmentis_node.Accounts.State.{
  World, load_account_information, save_account_state, holding_of, put_account_with_vesting_locks,
  get_escrow, put_escrow,
}
use carmentis_node.Accounts.History.{add_history_entry}

-- `Transfer`
pub record Transfer (sdk : Sdk) : Type 0 where
  pub kind : ℕ
  pub payer_account : Option Bytes
  pub payee_account : Option Bytes
  pub amount_as_atomics : ℕ
  pub fees_as_atomics : ℕ
  pub vesting_parameters : Option sdk.Vesting
  pub escrow_parameters : Option sdk.EscrowTerms

-- What `tokenTransfer` is given beside the transfer.
pub record Context (sdk : Sdk) : Type 0 where
  pub chain_reference : sdk.ChainReference
  pub timestamp : ℕ
  pub public_reference : Bytes
  pub private_reference : Bytes

-- `type & ECO.BK_PLUS ? amount : -amount`
abbrev pub signed_amount : ℕ → ℕ → ℤ
signed_amount kind amount = if is_plus kind then pos amount else minus amount

module _ (sdk : Sdk) (db : Database) (radix : Radix db) where
  -- The case `BK_RECEIVED_VESTING` of `update`.
  unfoldable pub receive_vesting :
      Bytes → ℤ → Option sdk.Vesting → Holding sdk.Locks → Action (World db) (Holding sdk.Locks)
  receive_vesting account_hash amount none h = throw
  receive_vesting account_hash amount (some vesting_parameters) h = do
    h' ← lift (sdk.add_vested_tokens h amount vesting_parameters)
    put_account_with_vesting_locks sdk db radix account_hash
    pure h'

  -- The case `BK_RECEIVED_ESCROW` of `update`.
  unfoldable pub receive_escrow :
      Bytes
      → Option Bytes
      → ℤ
      → Option sdk.EscrowTerms
      → Holding sdk.Locks
      → Action (World db) (Holding sdk.Locks)
  receive_escrow account_hash linked_account_hash amount none h = throw
  receive_escrow account_hash none amount (some terms) h = throw
  receive_escrow account_hash (some payer) amount (some terms) h = do
    escrow ← read (λ w. get_escrow sdk db radix w (sdk.escrow_identifier terms))
    throw_when (is_some escrow)
    h' ← lift (sdk.add_escrowed_tokens h amount terms)
    put_escrow sdk db radix (sdk.escrow_identifier terms) (record {
      payer_account = payer;
      payee_account = account_hash;
      agent_account = sdk.transfer_authorizer terms;
    })
    pure h'

  -- The `switch` of `update`.
  unfoldable pub add_tokens :
      ℕ
      → Bytes
      → Option Bytes
      → ℕ
      → Option sdk.Vesting
      → Option sdk.EscrowTerms
      → Holding sdk.Locks
      → Action (World db) (Holding sdk.Locks)
  add_tokens kind account_hash linked_account_hash amount vesting_parameters escrow_parameters h =
      let n = signed_amount kind amount in
      if kind == sdk.bk_received_vesting
      then receive_vesting account_hash n vesting_parameters h
      else if kind == sdk.bk_received_escrow
      then receive_escrow account_hash linked_account_hash n escrow_parameters h
      else lift (sdk.add_spendable_tokens h n)

  -- `update`
  unfoldable pub update :
      ℕ
      → Bytes
      → Option Bytes
      → ℕ
      → Context sdk
      → Option sdk.Vesting
      → Option sdk.EscrowTerms
      → Action (World db) (Unit {0})
  update kind account_hash linked_account_hash amount context vesting_parameters escrow_parameters =
      do
        information ← read (λ w. load_account_information sdk db radix w account_hash)
        h ←
            add_tokens kind account_hash linked_account_hash amount vesting_parameters
              escrow_parameters (holding_of sdk db radix information.state)
        let account_state = record information.state {
          height = information.state.height + 1;
          balance = h.balance;
          locks = h.locks;
        }
        hash ←
            add_history_entry sdk db radix account_state kind account_hash linked_account_hash
              amount context.chain_reference context.timestamp context.public_reference
              context.private_reference
        save_account_state sdk db radix account_hash
            (record account_state { last_history_hash = hash })

  -- The checks of the payer.
  unfoldable pub check_payer : Transfer sdk → Action (World db) (Unit {0})
  check_payer t = elim t.payer_account [
    | none ↦ pure tt
    | some payer ↦ do
      information ← read (λ w. load_account_information sdk db radix w payer)
      throw_when (not (sdk.is_allowed_transfer information.kind t.kind))
      let spendable_tokens = sdk.spendable (holding_of sdk db radix information.state)
      throw_when (ltb_ℤ spendable_tokens (pos (t.amount_as_atomics + t.fees_as_atomics)))
  ]

  abbrev pub is_account_creation : Transfer sdk → Bool
  is_account_creation t = if t.kind == sdk.bk_sent_issuance then true else t.kind == sdk.bk_sale

  -- The checks of the payee.
  unfoldable pub check_payee : Transfer sdk → Action (World db) (Unit {0})
  check_payee t = elim t.payee_account [
    | none ↦ pure tt
    | some payee ↦ do
      information ← read (λ w. load_account_information sdk db radix w payee)
      throw_when (not (sdk.is_allowed_transfer information.kind (flip t.kind)))
      throw_when
          (if is_account_creation t then information.is_present else not information.is_present)
  ]

  -- One of the two calls of `update` in `tokenTransfer`, if its account is not null.
  unfoldable pub update_side :
      ℕ → Option Bytes → Option Bytes → Transfer sdk → Context sdk → Action (World db) (Unit {0})
  update_side kind none linked_account t context = pure tt
  update_side kind (some account) linked_account t context =
      update kind account linked_account t.amount_as_atomics context t.vesting_parameters
        t.escrow_parameters

  -- `tokenTransfer`
  unfoldable pub token_transfer : Transfer sdk → Context sdk → Action (World db) (Unit {0})
  token_transfer t context = do
    check_payer t
    check_payee t
    update_side t.kind t.payer_account t.payee_account t context
    update_side (flip t.kind) t.payee_account t.payer_account t context
