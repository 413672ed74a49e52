-- ===== src/GlobalState/Settlements.antt =====
-- The settlement of an escrow by a microblock (`updateGlobalStateOnMicroblock` of
-- GlobalStateUpdater.ts).
use carmentis_node.Base.{
  ℕ, ◌≡◌, Bool, false, inl, inr, some, List, ◌∷◌, Bytes, bytes_eq, arith, Result,
}
use carmentis_node.Base.Effects.{failed}
use carmentis_node.Database.Stores.{Database}
use carmentis_node.Accounts.Sdk.{Radix, Escrow}
use carmentis_node.Accounts.State.{World, get_escrow}
use carmentis_node.Accounts.Settlements.{escrow_settlement-refused}
use carmentis_node.GlobalState.Types.{
  Section, account_escrow_settlement, account_vb, Microblock, VirtualBlockchain, CometParameters,
  Node, NodeSdk,
}
use carmentis_node.GlobalState.Sections.{
  handle_account_section, handle_account_sections, handle_account_update,
}
use carmentis_node.GlobalState.Microblocks.{
  fees_to_pay, handle_update, apply_microblock, update_global_state_on_microblock,
}
use carmentis_node.GlobalState.Writers.{has_section, is_protocol_creation}
use carmentis_node.GlobalState.Checks.{update_global_state_on_microblock-cases}

module _ (db : Database) (sdk : NodeSdk db) (radix : Radix db) where
  -- The account is the agent of no escrow of this identifier.
  abbrev pub IsNotAgent : World db → Bytes → Bytes → Type 0
  IsNotAgent w account id =
      (escrow : Escrow)
      → get_escrow sdk.accounts db radix w id ≡ some escrow
      → bytes_eq account escrow.agent_account ≡ false

  handle_account_update-refused :
      (account : Bytes) (key : Result Bytes) (mb : Microblock) (fees : ℕ) (id : Bytes)
      (confirmed : Bool) (rest : List Section) (w : World db)
      → mb.sections ≡ account_escrow_settlement id confirmed ∷ rest
      → IsNotAgent w account id
      → handle_account_update db sdk radix account key mb fees w ≡ failed w
  unfolding handle_account_update handle_account_sections handle_account_section
  handle_account_update-refused account key mb fees id confirmed rest w h other = ground (
    arith,
    h,
    escrow_settlement-refused sdk.accounts db radix account id confirmed mb.timestamp
        (sdk.section_reference mb.hash 0) w other,
  )

  -- A microblock that settles an escrow fails and changes nothing, unless the account on which it
  -- is written is the agent of that escrow, whoever has signed it.
  pub update_global_state_on_microblock-settlement_refused :
      (payer : Bytes) (key : Result Bytes) (vb : VirtualBlockchain) (mb : Microblock)
      (p : CometParameters) (transaction id : Bytes) (confirmed : Bool) (rest : List Section)
      (n : Node db)
      → mb.fees_payer_account ≡ some payer
      → has_section is_protocol_creation mb.sections ≡ false
      → vb.class_ ≡ account_vb key
      → mb.sections ≡ account_escrow_settlement id confirmed ∷ rest
      → IsNotAgent n.world vb.id id
      → update_global_state_on_microblock db sdk radix vb mb p transaction n ≡ failed n
  unfolding apply_microblock handle_update
  update_global_state_on_microblock-settlement_refused payer key vb mb p transaction id confirmed
        rest n h1 h2 h3 h4 other =
      elim (update_global_state_on_microblock-cases db sdk radix payer vb mb p transaction n h1
        h2) [
          | inl refused ↦ refused
          | inr (payable, applied) ↦
              let handled =
                handle_account_update-refused vb.id key mb (fees_to_pay mb) id confirmed rest
                  n.world h4 other in
              ground (arith, applied, h3, handled)
        ]
