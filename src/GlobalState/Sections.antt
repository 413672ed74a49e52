-- ===== src/GlobalState/Sections.antt =====
-- What the sections of a microblock do to the accounts (`handleTokenIssuance`, `handleAccountUpdate`
-- and `handleValidatorNodeUpdate` of GlobalStateUpdater.ts).
use carmentis_node.Base.{ℕ, ◌+◌, Option, none, some, List, [], ◌∷◌, Bytes, Result, is_some}
use carmentis_node.Base.Effects.{Action, pure, throw_when, lift, read, ◌>>=◌, ◌>>◌}
use carmentis_node.Database.Stores.{Database}
use carmentis_node.Accounts.Sdk.{Radix}
use carmentis_node.Accounts.State.{World}
use carmentis_node.Accounts.Transfer.{Transfer, Context, token_transfer}
use carmentis_node.Accounts.Staking.{stake, plan_unstake, cancel_slashing}
use carmentis_node.Accounts.Escrow.{escrow_settlement}
use carmentis_node.Accounts.Manager.{
  check_public_key_availability_or_fail, save_account_by_public_key,
}
use carmentis_node.GlobalState.Types.{
  Section, account_token_issuance, account_creation, account_transfer, account_stake,
  account_unstake, account_escrow_transfer, account_escrow_settlement, account_vesting_transfer,
  vn_cometbft_public_key_declaration, vn_slashing_cancellation, Microblock, ValidatorNode, NodeSdk,
}
use carmentis_node.GlobalState.State.{get_validator_set, get_protocol_state}

module _ (db : Database) (sdk : NodeSdk db) (radix : Radix db) where
  -- A transfer without vesting or escrow, between two accounts.
  abbrev pub transfer_of : ℕ → Option Bytes → Bytes → ℕ → ℕ → Transfer sdk.accounts
  transfer_of kind payer payee amount fees = record {
    kind = kind;
    payer_account = payer;
    payee_account = some payee;
    amount_as_atomics = amount;
    fees_as_atomics = fees;
    vesting_parameters = none;
    escrow_parameters = none;
  }

  -- The reference to a section, at the time of its microblock.
  abbrev pub at_section : Microblock → ℕ → Bytes → Bytes → Context sdk.accounts
  at_section microblock index public_reference private_reference = record {
    chain_reference = sdk.section_reference microblock.hash index;
    timestamp = microblock.timestamp;
    public_reference = public_reference;
    private_reference = private_reference;
  }

  -- `ACCOUNT_TOKEN_ISSUANCE`, which other sections are not
  unfoldable pub issue : Bytes → Bytes → Microblock → ℕ → Section → Action (World db) (Unit {0})
  issue account_id public_key microblock index (account_token_issuance amount) = do
    token_transfer sdk.accounts db radix
        (transfer_of sdk.accounts.bk_sent_issuance none account_id amount 0)
        (at_section microblock index [] [])
    save_account_by_public_key sdk.accounts db radix account_id public_key
  issue account_id public_key microblock index section = pure tt

  -- The loop of `handleTokenIssuance`.
  unfoldable pub issue_all :
      Bytes → Bytes → Microblock → ℕ → List Section → Action (World db) (Unit {0})
  issue_all account_id public_key microblock index [] = pure tt
  issue_all account_id public_key microblock index (section ∷ sections) = do
    issue account_id public_key microblock index section
    issue_all account_id public_key microblock (index + 1) sections

  -- `handleTokenIssuance`
  unfoldable pub handle_token_issuance :
      Bytes → Result Bytes → Microblock → Action (World db) (Unit {0})
  handle_token_issuance account_id public_key microblock = do
    issuer_public_key ← lift public_key
    check_public_key_availability_or_fail sdk.accounts db radix issuer_public_key
    issue_all account_id issuer_public_key microblock 0 microblock.sections

  -- The body of the loop of `handleAccountUpdate`.
  unfoldable pub handle_account_section :
      Bytes → Result Bytes → Microblock → ℕ → ℕ → Section → Action (World db) (Unit {0})
  handle_account_section id public_key mb fees index (account_creation seller_account amount) = do
    account_public_key ← lift public_key
    check_public_key_availability_or_fail sdk.accounts db radix account_public_key
    token_transfer sdk.accounts db radix
        (transfer_of sdk.accounts.bk_sale (some seller_account) id amount fees)
        (at_section mb index [] [])
    save_account_by_public_key sdk.accounts db radix id account_public_key
  handle_account_section id public_key mb fees index
        (account_transfer account amount public_reference private_reference) =
      token_transfer sdk.accounts db radix
        (transfer_of sdk.bk_sent_payment (some id) account amount fees)
        (at_section mb index public_reference private_reference)
  handle_account_section id public_key mb fees index
        (account_stake amount object_type object_identifier) =
      do
        protocol ← read (λ w. get_protocol_state db sdk w.store)
        stake sdk.accounts db radix id amount object_type object_identifier protocol.staking
  handle_account_section id public_key mb fees index
        (account_unstake amount object_type object_identifier) =
      do
        protocol ← read (λ w. get_protocol_state db sdk w.store)
        plan_unstake sdk.accounts db radix id amount object_type object_identifier mb.timestamp
            protocol.staking
  handle_account_section id public_key mb fees index
        (account_escrow_transfer account amount escrow_identifier agent_account duration_days
          public_reference private_reference) =
      token_transfer sdk.accounts db radix
        (record (transfer_of sdk.bk_sent_escrow (some id) account amount fees) {
          escrow_parameters =
              some (
                sdk.escrow_terms escrow_identifier account agent_account mb.timestamp
                  duration_days);
        })
        (at_section mb index public_reference private_reference)
  handle_account_section id public_key mb fees index
        (account_escrow_settlement escrow_identifier confirmed) =
      escrow_settlement sdk.accounts db radix id escrow_identifier confirmed mb.timestamp
        (sdk.section_reference mb.hash index)
  handle_account_section id public_key mb fees index
        (account_vesting_transfer account amount cliff_duration_days vesting_duration_days
          public_reference private_reference) =
      token_transfer sdk.accounts db radix
        (record (transfer_of sdk.bk_sent_vesting (some id) account amount fees) {
          vesting_parameters =
              some
                (sdk.vesting_terms amount mb.timestamp cliff_duration_days vesting_duration_days);
        })
        (at_section mb index public_reference private_reference)
  handle_account_section id public_key mb fees index section = pure tt

  -- The loop of `handleAccountUpdate`.
  unfoldable pub handle_account_sections :
      Bytes → Result Bytes → Microblock → ℕ → ℕ → List Section → Action (World db) (Unit {0})
  handle_account_sections id public_key mb fees index [] = pure tt
  handle_account_sections id public_key mb fees index (section ∷ sections) = do
    handle_account_section id public_key mb fees index section
    handle_account_sections id public_key mb fees (index + 1) sections

  -- `handleAccountUpdate`
  unfoldable pub handle_account_update :
      Bytes → Result Bytes → Microblock → ℕ → Action (World db) (Unit {0})
  handle_account_update id public_key mb fees =
      handle_account_sections id public_key mb fees 0 mb.sections

  -- `validatorNodePublicKeyDeclarationCallback`
  unfoldable pub validator_node_public_key_declaration_callback :
      Bytes → Action (World db) (Unit {0})
  validator_node_public_key_declaration_callback comet_public_key = do
    comet_public_key_bytes ← lift (sdk.decode_base64 comet_public_key)
    existing_node ←
        read (λ w. get_validator_set db sdk w.store (sdk.comet_address comet_public_key_bytes))
    throw_when (is_some existing_node)

  -- `validatorNodeSlashingCancellationCallback`
  unfoldable pub validator_node_slashing_cancellation_callback :
      ValidatorNode → Action (World db) (Unit {0})
  validator_node_slashing_cancellation_callback node = do
    account_id ← lift node.organization_account
    cancel_slashing sdk.accounts db radix account_id node.id

  unfoldable pub handle_validator_node_section :
      ValidatorNode → Section → Action (World db) (Unit {0})
  handle_validator_node_section node (vn_cometbft_public_key_declaration comet_public_key) =
      validator_node_public_key_declaration_callback comet_public_key
  handle_validator_node_section node vn_slashing_cancellation =
      validator_node_slashing_cancellation_callback node
  handle_validator_node_section node section = pure tt

  -- `handleValidatorNodeUpdate`
  unfoldable pub handle_validator_node_update :
      ValidatorNode → List Section → Action (World db) (Unit {0})
  handle_validator_node_update node [] = pure tt
  handle_validator_node_update node (section ∷ sections) = do
    handle_validator_node_section node section
    handle_validator_node_update node sections
