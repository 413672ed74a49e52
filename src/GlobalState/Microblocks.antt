-- ===== src/GlobalState/Microblocks.antt =====
-- What a microblock does to the global state (`updateGlobalStateOnMicroblock`, also during genesis,
-- of GlobalStateUpdater.ts).
use carmentis_node.Base.{
  ℕ, ◌+◌, ◌*◌, not, ◌&&◌, none, some, [], ◌∷◌, ◌++◌, Bytes, length, get_or, set, ltb, ◌==◌,
  if◌then◌else◌, Result,
}
use carmentis_node.Base.Effects.{Action, pure, throw, throw_when, lift, modify, read, ◌>>=◌, ◌>>◌}
use carmentis_node.Base.Ints.{pos, ltb_ℤ}
use carmentis_node.Database.Stores.{Database}
use carmentis_node.Accounts.Sdk.{Radix}
use carmentis_node.Accounts.Transfer.{token_transfer}
use carmentis_node.Accounts.Manager.{get_account_balance, is_account_defined}
use carmentis_node.GlobalState.Types.{
  Microblock, account_vb, validator_node_vb, protocol_vb, other_vb, VirtualBlockchain,
  CometParameters, Node, NodeSdk,
}
use carmentis_node.GlobalState.State.{
  on_world, is_protocol_vb_defined, store_protocol_virtual_blockchain_identifier,
  store_node_virtual_blockchain_index, store_microblock_hash_in_merkle_tree,
  store_virtual_blockchain_state, store_microblock,
}
use carmentis_node.GlobalState.Sections.{
  handle_token_issuance, handle_account_update, handle_validator_node_update, transfer_of,
}
use carmentis_node.GlobalState.Writers.{
  has_section, is_protocol_creation, is_token_issuance, is_account_id_allowed_to_write,
}

-- `feesToPay`
abbrev pub fees_to_pay : Microblock → ℕ
fees_to_pay microblock = microblock.gas_price * microblock.gas

module _ (db : Database) (sdk : NodeSdk db) (radix : Radix db) where
  -- The checks of the expiration day.
  unfoldable pub check_expiration : VirtualBlockchain → ℕ → Action (Node db) (Unit {0})
  check_expiration vb block_timestamp = if vb.expiration_day == 0 then pure tt else (do
    throw_when (not (vb.kind == sdk.application_ledger_vb))
    throw_when (ltb vb.expiration_day block_timestamp))

  -- The checks of `updateGlobalStateOnMicroblock`, once the payer of the fees is known.
  unfoldable pub check_microblock :
      Bytes → VirtualBlockchain → Microblock → CometParameters → Action (Node db) (Unit {0})
  unfolding check_expiration
  check_microblock payer vb mb p = do
    exists ← read (λ n. is_account_defined sdk.accounts db radix n.world payer)
    throw_when (not exists)
    balance ← read (λ n. get_account_balance sdk.accounts db radix n.world payer)
    throw_when (fees_to_pay mb == 0)
    check_expiration vb p.block_timestamp
    throw_when (not (ltb_ℤ (pos (fees_to_pay mb)) balance))
    loaded ← read (λ n. sdk.load_account_public_key n payer)
    public_key ← lift loaded
    throw_when (not (sdk.verify mb public_key))
    allowed ← read (λ n. is_account_id_allowed_to_write db sdk radix n payer vb mb)
    is_allowed_to_write ← lift allowed
    throw_when (not is_allowed_to_write)

  -- The handler of the class of the virtual blockchain.
  unfoldable pub handle_update : VirtualBlockchain → Microblock → ℕ → Action (Node db) (Unit {0})
  handle_update vb mb fees = elim vb.class_ [
    | account_vb public_key ↦ on_world (handle_account_update db sdk radix vb.id public_key mb fees)
    | validator_node_vb node ↦ on_world (handle_validator_node_update db sdk radix node mb.sections)
    | protocol_vb ↦ pure tt
    | other_vb ↦ pure tt
  ]

  -- The transfer of the fees to the account of the block fees.
  unfoldable pub pay_fees : Bytes → Microblock → ℕ → Action (Node db) (Unit {0})
  pay_fees payer mb sent_at = on_world (
      token_transfer sdk.accounts db radix
        (transfer_of db sdk radix sdk.bk_paid_tx_fees (some payer) sdk.account_block_fees
          (fees_to_pay mb) 0)
        (record {
          chain_reference = sdk.microblock_reference mb.hash;
          timestamp = sent_at;
          public_reference = [];
          private_reference = [];
        }))

  -- The statistics of the block.
  unfoldable pub update_statistics :
      VirtualBlockchain → Microblock → ℕ → Bytes → Action (Node db) (Unit {0})
  update_statistics vb mb fees transaction = modify (λ n.
      let u = n.updater in
      record n {
        updater = record u {
          block_section_count = u.block_section_count + length mb.sections;
          block_size_in_bytes = u.block_size_in_bytes + length transaction;
          total_fees = u.total_fees + fees;
          new_object_counts =
              if vb.height == 1
              then set u.new_object_counts vb.kind (get_or u.new_object_counts vb.kind 0 + 1)
              else u.new_object_counts;
          processed_and_accepted_microblocks =
              u.processed_and_accepted_microblocks
              ++ (record {
                hash = mb.hash;
                vb_id = vb.id;
                vb_type = vb.kind;
                height = vb.height;
                size = length transaction;
                section_count = length mb.sections;
              }
                  ∷ []);
        };
      })

  -- The three calls that store the microblock.
  unfoldable pub store_all : VirtualBlockchain → Microblock → Bytes → Action (Node db) (Unit {0})
  store_all vb mb transaction = do
    root_hash ← store_microblock_hash_in_merkle_tree db sdk vb mb
    store_virtual_blockchain_state db sdk vb root_hash
    store_microblock db sdk vb.expiration_day vb mb transaction

  abbrev pub index_validator_node : VirtualBlockchain → Action (Node db) (Unit {0})
  index_validator_node vb =
      if vb.kind == sdk.vb_validator_node
      then store_node_virtual_blockchain_index db sdk vb.id
      else pure tt

  -- What `updateGlobalStateOnMicroblock` does to a microblock that has passed the checks.
  unfoldable pub apply_microblock :
      Bytes → VirtualBlockchain → Microblock → CometParameters → Bytes → Action (Node db) (Unit {0})
  apply_microblock payer vb mb p transaction = do
    handle_update vb mb (fees_to_pay mb)
    pay_fees payer mb p.block_timestamp
    update_statistics vb mb (fees_to_pay mb) transaction
    store_all vb mb transaction
    if vb.height == 1 then index_validator_node vb else pure tt

  -- `updateGlobalStateOnMicroblock`
  unfoldable pub update_global_state_on_microblock :
      VirtualBlockchain → Microblock → CometParameters → Bytes → Action (Node db) (Unit {0})
  unfolding has_section is_protocol_vb_defined
  update_global_state_on_microblock vb mb p transaction = do
    is_already_defined ← read (λ n. is_protocol_vb_defined db sdk n.world.store)
    if has_section is_protocol_creation mb.sections && is_already_defined
        then pure tt
        else elim mb.fees_payer_account [
          | none ↦ throw
          | some payer ↦ do
            check_microblock payer vb mb p
            apply_microblock payer vb mb p transaction
        ]

  abbrev issue_tokens : VirtualBlockchain → Result Bytes → Microblock → Action (Node db) (Unit {0})
  issue_tokens vb public_key mb =
      if has_section is_token_issuance mb.sections
      then on_world (handle_token_issuance db sdk radix vb.id public_key mb)
      else pure tt

  abbrev index_at_genesis : VirtualBlockchain → Action (Node db) (Unit {0})
  index_at_genesis vb = do
    if vb.kind == sdk.vb_protocol
        then store_protocol_virtual_blockchain_identifier db sdk vb.id
        else pure tt
    index_validator_node vb

  -- `updateGlobalStateOnMicroblockDuringGenesis`
  unfoldable pub update_global_state_on_microblock_during_genesis :
      VirtualBlockchain → Microblock → Bytes → Action (Node db) (Unit {0})
  update_global_state_on_microblock_during_genesis vb mb transaction = do
    elim vb.class_ [
      | account_vb public_key ↦ issue_tokens vb public_key mb
      | validator_node_vb node ↦ pure tt
      | protocol_vb ↦ pure tt
      | other_vb ↦ pure tt
    ]
    handle_update vb mb 0
    update_statistics vb mb 0 transaction
    store_all vb mb transaction
    if vb.height == 1 then index_at_genesis vb else pure tt
