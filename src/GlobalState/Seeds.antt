-- ===== src/GlobalState/Seeds.antt =====
-- The seeds of the first microblocks (`storeMicroblock` and `genesisSeedExists` of GlobalState.ts).
use carmentis_node.Base.{
  sym, Option-cases, if◌then◌else◌, ◌≡◌, refl, ap, ◌∙◌, true, false, inl, inr, [], Bytes, ◌==◌,
  arith, Bool-cases, is_some,
}
use carmentis_node.Base.Effects.{pure, done, bind-eq-done}
use carmentis_node.Database.Stores.{Table, table_id, Database}
use carmentis_node.Accounts.Sdk.{Radix}
use carmentis_node.Storage.Cached.{add_microblock_to_buffer}
use carmentis_node.GlobalState.Types.{Microblock, VirtualBlockchain, CometParameters, Node, NodeSdk}
use carmentis_node.GlobalState.State.{
  with_store, cached_storage, with_storage, genesis_seed_of, genesis_seed_exists,
  store_microblock_hash_in_merkle_tree, store_virtual_blockchain_state, store_microblock,
}
use carmentis_node.GlobalState.Microblocks.{
  store_all, fees_to_pay, handle_update, pay_fees, update_statistics, index_validator_node,
  apply_microblock, update_global_state_on_microblock,
}
use carmentis_node.GlobalState.Writers.{has_section, is_protocol_creation}
use carmentis_node.GlobalState.Checks.{update_global_state_on_microblock-cases}
use carmentis_node.GlobalState.Entries.{get_put_same, get_put_other}

module _ (db : Database) (sdk : NodeSdk db) (radix : Radix db) where
  -- The seed of a first microblock is among those that are used.
  abbrev pub IsUsed : Microblock → Node db → Type 0
  IsUsed mb n = genesis_seed_exists db sdk n.world.store (genesis_seed_of db sdk mb) ≡ true

  seed_store-IsUsed :
      (s : db.Store) (seed : Bytes)
      → genesis_seed_exists db sdk (db.put_raw s Table.genesis_seed seed []) seed ≡ true
  seed_store-IsUsed s seed = ap is_some (get_put_same db sdk radix s Table.genesis_seed seed [])

  store_microblock-IsUsed :
      (vb : VirtualBlockchain) (mb : Microblock) (transaction : Bytes) (n n' : Node db)
      → (mb.height == 1) ≡ true
      → store_microblock db sdk vb.expiration_day vb mb transaction n ≡ done tt n'
      → IsUsed mb n'
  unfolding store_microblock
  store_microblock-IsUsed vb mb transaction n n' first e =
      let buffer =
        add_microblock_to_buffer sdk.storage db vb.expiration_day mb.hash transaction
          (cached_storage n) in
      let information = sdk.encode_microblock_information mb vb.id vb.kind in
      let s = db.put_raw buffer.store Table.microblock_vb_information mb.hash information in
      let seed = genesis_seed_of db sdk mb in
      let same : n' ≡ with_store (with_storage n buffer) (db.put_raw s Table.genesis_seed seed []) =
        ground (arith, first, e) in
      ap (λ m. genesis_seed_exists db sdk m.world.store seed) same ∙ seed_store-IsUsed s seed

  index-IsUsed :
      (vb : VirtualBlockchain) (mb : Microblock) (n n' : Node db)
      → IsUsed mb n
      → (if vb.height == 1 then index_validator_node db sdk radix vb else pure tt) n ≡ done tt n'
      → IsUsed mb n'
  unfolding table_id
  index-IsUsed vb mb n n' used e =
      let seed = genesis_seed_of db sdk mb in
      let with_index = with_store n (db.put_raw n.world.store Table.validator_index vb.id []) in
      let kept : IsUsed mb with_index =
        ap is_some (
          get_put_other db sdk radix n.world.store Table.validator_index Table.genesis_seed vb.id
            seed [] refl)
        ∙ used in
      elim (Bool-cases (vb.height == 1)) [
        | inr later ↦ ground (arith, later, e, used)
        | inl first ↦ elim (Bool-cases (vb.kind == sdk.vb_validator_node)) [
          | inr other ↦ ground (arith, first, other, e, used)
          | inl node ↦
              let same : n' ≡ with_index = ground (arith, first, node, e) in
              ap (λ m. genesis_seed_exists db sdk m.world.store seed) same ∙ kept
        ]
      ]

  apply_microblock-IsUsed :
      (payer : Bytes) (vb : VirtualBlockchain) (mb : Microblock) (p : CometParameters)
      (transaction : Bytes) (n n' : Node db)
      → (mb.height == 1) ≡ true
      → apply_microblock db sdk radix payer vb mb p transaction n ≡ done tt n'
      → IsUsed mb n'
  unfolding apply_microblock store_all
  apply_microblock-IsUsed payer vb mb p transaction n n' first e =
      let (u1, handled, h, e1) =
        bind-eq-done (handle_update db sdk radix vb mb (fees_to_pay mb) n) _ e in
      let (u2, paid, fees, e2) =
        bind-eq-done (pay_fees db sdk radix payer mb p.block_timestamp handled) _ e1 in
      let (u3, counted, statistics, e3) =
        bind-eq-done (update_statistics db sdk radix vb mb (fees_to_pay mb) transaction paid) _
          e2 in
      let (u4, stored, all, e4) =
        bind-eq-done (store_all db sdk radix vb mb transaction counted) _ e3 in
      let (root, n1, hashed, f1) =
        bind-eq-done (store_microblock_hash_in_merkle_tree db sdk vb mb counted) _ all in
      let (u5, n2, state, f2) =
        bind-eq-done (store_virtual_blockchain_state db sdk vb root n1) _ f1 in
      index-IsUsed vb mb stored n' (store_microblock-IsUsed vb mb transaction n2 stored first f2) e4

  -- A first microblock that is accepted and not skipped leaves its seed among those that are used.
  pub update_global_state_on_microblock-IsUsed :
      (vb : VirtualBlockchain) (mb : Microblock) (p : CometParameters) (transaction : Bytes)
      (n n' : Node db)
      → (mb.height == 1) ≡ true
      → has_section is_protocol_creation mb.sections ≡ false
      → update_global_state_on_microblock db sdk radix vb mb p transaction n ≡ done tt n'
      → IsUsed mb n'
  unfolding update_global_state_on_microblock
  update_global_state_on_microblock-IsUsed vb mb p transaction n n' first other e =
      elim (Option-cases mb.fees_payer_account) [
        | inl unpaid ↦ ground (arith, unpaid, other, e)
        | inr (payer, h) ↦
            elim (update_global_state_on_microblock-cases db sdk radix payer vb mb p transaction n h
              other) [
                | inl refused ↦ ground (arith, refused, e)
                | inr (payable, applied) ↦
                    apply_microblock-IsUsed payer vb mb p transaction n n' first (sym applied ∙ e)
              ]
      ]
