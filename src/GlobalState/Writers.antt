-- ===== src/GlobalState/Writers.antt =====
-- Who may write on a virtual blockchain (`isAccountIdAllowedToWriteOnVirtualBlockchain` of
-- GlobalStateUpdater.ts).
use carmentis_node.Base.{
  Bool, true, false, ◌&&◌, ◌||◌, Option, none, some, List, [], ◌∷◌, Bytes, bytes_eq, ◌==◌,
  if◌then◌else◌, Result, ok, thrown,
}
use carmentis_node.Database.Stores.{Database}
use carmentis_node.Accounts.Sdk.{Radix}
use carmentis_node.Accounts.State.{load_account_information, holding_of}
use carmentis_node.Accounts.Escrow.{find_lock}
use carmentis_node.GlobalState.Types.{
  Section, account_creation, account_token_issuance, account_escrow_settlement, vn_approval,
  vn_slashing_cancellation, protocol_creation, Microblock, account_vb, validator_node_vb,
  protocol_vb, other_vb, VirtualBlockchain, Node, NodeSdk,
}
use carmentis_node.GlobalState.State.{get_protocol_state}

-- `microblock.hasSection(type)`
unfoldable pub has_section : (Section → Bool) → List Section → Bool
has_section is_type [] = false
has_section is_type (section ∷ sections) =
    if is_type section then true else has_section is_type sections

abbrev pub is_protocol_creation : Section → Bool
is_protocol_creation protocol_creation = true
is_protocol_creation section = false

abbrev pub is_account_creation : Section → Bool
is_account_creation (account_creation seller amount) = true
is_account_creation section = false

abbrev pub is_token_issuance : Section → Bool
is_token_issuance (account_token_issuance amount) = true
is_token_issuance section = false

abbrev is_approval : Section → Bool
is_approval vn_approval = true
is_approval section = false

abbrev is_slashing_cancellation : Section → Bool
is_slashing_cancellation vn_slashing_cancellation = true
is_slashing_cancellation section = false

-- The escrow of the first settlement: `hasSection` and `getSection`.
unfoldable pub settled_escrow : List Section → Option Bytes
settled_escrow [] = none
settled_escrow (account_escrow_settlement escrow_identifier confirmed ∷ sections) =
    some escrow_identifier
settled_escrow (section ∷ sections) = settled_escrow sections

module _ (db : Database) (sdk : NodeSdk db) (radix : Radix db) where
  -- Case 2: only the agent of an escrow of the account settles it.
  unfoldable pub is_agent : Node db → Bytes → Bytes → Bytes → Bool
  is_agent n owner_account_id escrow_identifier account_id =
      let information = load_account_information sdk.accounts db radix n.world owner_account_id in
      elim (find_lock sdk.accounts db radix escrow_identifier
        (sdk.accounts.escrow_locks (holding_of sdk.accounts db radix information.state))) [
          | none ↦ false
          | some terms ↦ bytes_eq (sdk.accounts.transfer_authorizer terms) account_id
        ]

  -- Case 3: the account of the organization that governs the protocol.
  unfoldable pub is_governance_account : Node db → Bytes → Result Bool
  is_governance_account n account_id =
      elim (sdk.load_organization_account n
        (get_protocol_state db sdk n.world.store).organization_id) [
          | thrown ↦ thrown
          | ok governance_account_id ↦ ok (bytes_eq governance_account_id account_id)
        ]

  abbrev allowed_on_account : Node db → Bytes → VirtualBlockchain → Microblock → Bool
  allowed_on_account n account_id vb mb =
      if has_section is_account_creation mb.sections && (mb.height == 1)
      then true
      else elim (settled_escrow mb.sections) [
        | some escrow_identifier ↦ is_agent n vb.id escrow_identifier account_id
        | none ↦ vb.is_account_id_allowed_to_write account_id
      ]

  abbrev allowed_on_validator_node : Node db → Bytes → VirtualBlockchain → Microblock → Result Bool
  allowed_on_validator_node n account_id vb mb =
      if has_section is_approval mb.sections || has_section is_slashing_cancellation mb.sections
      then is_governance_account n account_id
      else ok (vb.is_account_id_allowed_to_write account_id)

  -- `isAccountIdAllowedToWriteOnVirtualBlockchain`
  unfoldable pub is_account_id_allowed_to_write :
      Node db → Bytes → VirtualBlockchain → Microblock → Result Bool
  unfolding has_section settled_escrow
  is_account_id_allowed_to_write n account_id vb mb = elim vb.class_ [
    | account_vb public_key ↦ ok (allowed_on_account n account_id vb mb)
    | validator_node_vb node ↦ allowed_on_validator_node n account_id vb mb
    | protocol_vb ↦ ok (vb.is_account_id_allowed_to_write account_id)
    | other_vb ↦ ok (vb.is_account_id_allowed_to_write account_id)
  ]
