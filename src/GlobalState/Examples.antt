-- ===== src/GlobalState/Examples.antt =====
-- The global state at concrete inputs.
pub mod Codecs
pub mod Worlds
mod Blocks
pub mod Payments
use carmentis_node.Base.{
  ◌&&◌, ◌+◌, ℕ, ◌≡◌, refl, Bool, true, false, Option, none, some, [], ◌∷◌, Bytes, bytes_eq, length,
  sum, arith, ok, ◌==◌, if◌then◌else◌, replicate,
}
use carmentis_node.Base.Maps.{find, erase, add, has}
use carmentis_node.Base.Effects.{Outcome, failed, state_of, for_each}
use carmentis_node.Base.Ints.{pos, minus, ◌+ℤ◌}
use carmentis_node.Database.Memory.{memory}
use carmentis_node.Database.Stores.{Table, table_id}
use carmentis_node.Accounts.State.{World, save_account_state, get_escrow}
use carmentis_node.Accounts.Examples.Worlds as AccountsWorlds
use carmentis_node.GlobalState.Types.{
  Section, account_escrow_settlement, account_vb, protocol_creation, Microblock, VirtualBlockchain,
  BlockInformation, ValidatorSet, CometParameters, Updater, Node,
}
use carmentis_node.GlobalState.State.{
  get_chain_information, get_block_information, has_block_content,
}
use carmentis_node.GlobalState.Validators.{update_entry, build_validator_set_update}
use carmentis_node.GlobalState.Days.{update_global_state_on_block}
use carmentis_node.GlobalState.Microblocks.{update_global_state_on_microblock}
use carmentis_node.GlobalState.Writers.{has_section}
use carmentis_node.GlobalState.Blocks.{FinalizeRequest, finalize_block_approval, clear_caches}
use carmentis_node.GlobalState.Checks.{update_global_state_on_microblock-protocol_creation}
use carmentis_node.GlobalState.Settlements.{
  IsNotAgent, update_global_state_on_microblock-settlement_refused,
}
use carmentis_node.GlobalState.Examples.Worlds.{
  sdk, node, microblock, ledger, parameters, validator, updater,
}

-- The escrow 5 is locked on account 1, and its agent is account 50, which signs its settlement.
abbrev settlement : Microblock
settlement = record microblock {
  fees_payer_account = some (50 ∷ []);
  sections = account_escrow_settlement (5 ∷ []) true ∷ [];
}

abbrev payee : VirtualBlockchain
payee = record ledger { class_ = account_vb (ok (70 ∷ [])); id = 1 ∷ []; kind = 0 }

payee-IsNotAgent : IsNotAgent memory sdk AccountsWorlds.radix node.world (1 ∷ []) (5 ∷ [])
unfolding find table_id bytes_eq
payee-IsNotAgent escrow h = ground (arith, h)

update_global_state_on_microblock-settlement_refused_example :
    update_global_state_on_microblock memory sdk AccountsWorlds.radix payee settlement parameters []
      node
    ≡ failed node
unfolding has_section
update_global_state_on_microblock-settlement_refused_example =
    update_global_state_on_microblock-settlement_refused memory sdk AccountsWorlds.radix (50 ∷ [])
      (ok (70 ∷ [])) payee settlement parameters [] (5 ∷ []) true [] node refl refl refl refl
      payee-IsNotAgent

-- The validator node gets the power 4, for 40 tokens.
abbrev record_of_node : ValidatorSet
record_of_node = record {
  validator_node_hash = 4 ∷ replicate 31 0;
  public_key_type = 5 ∷ [];
  public_key_bytes = 8 ∷ [];
  voting_power = 4;
}

abbrev powered : Node memory
powered = state_of (build_validator_set_update memory sdk AccountsWorlds.radix node)
