-- ===== src/Abci/Replays.antt =====
-- A microblock that comes again (`checkGenesisSeedUniquenessOrFail` of AbciService.ts).
use carmentis_node.Base.{◌≡◌, true, false, Bytes, ◌==◌, arith}
use carmentis_node.Base.Effects.{done, failed, bind-eq-done}
use carmentis_node.Database.Stores.{Database}
use carmentis_node.Accounts.Sdk.{Radix}
use carmentis_node.GlobalState.Types.{CometParameters, Microblock, Node, NodeSdk}
use carmentis_node.GlobalState.State.{genesis_seed_of}
use carmentis_node.GlobalState.Writers.{has_section, is_protocol_creation}
use carmentis_node.GlobalState.Seeds.{IsUsed, update_global_state_on_microblock-IsUsed}
use carmentis_node.Abci.Service.{
  ServiceSdk, check_genesis_seed_uniqueness, check_microblock_local_state_consistency,
  handle_microblock,
}

module _ (db : Database) (sdk : NodeSdk db) (radix : Radix db) (service : ServiceSdk db) where
  -- A first microblock with a seed that is used is refused, and nothing is changed.
  used-refused :
      (p : CometParameters) (mb : Microblock) (tx : Bytes) (n : Node db)
      → (mb.height == 1) ≡ true
      → IsUsed db sdk radix mb n
      → handle_microblock db sdk radix service p mb tx n ≡ failed n
  unfolding handle_microblock check_microblock_local_state_consistency check_genesis_seed_uniqueness
  used-refused p mb tx n first used = ground (arith, first, used)

  handle_microblock-IsUsed :
      (p : CometParameters) (mb : Microblock) (tx : Bytes) (n n' : Node db)
      → (mb.height == 1) ≡ true
      → has_section is_protocol_creation mb.sections ≡ false
      → handle_microblock db sdk radix service p mb tx n ≡ done tt n'
      → IsUsed db sdk radix mb n'
  unfolding handle_microblock
  handle_microblock-IsUsed p mb tx n n' first other e =
      let (vb, m, checked, updated) =
        bind-eq-done
          (check_microblock_local_state_consistency db sdk radix service mb p.block_timestamp n) _
          e in
      update_global_state_on_microblock-IsUsed db sdk radix vb mb p tx m n' first other updated

  -- Once the first microblock of a virtual blockchain, which declares no protocol, is accepted, a
  -- first microblock with the same seed is refused and changes nothing: the same microblock again,
  -- or another one that begins with its seed.
  pub handle_microblock-replay :
      (p p' : CometParameters) (mb mb' : Microblock) (tx tx' : Bytes) (n n' : Node db)
      → (mb.height == 1) ≡ true
      → (mb'.height == 1) ≡ true
      → genesis_seed_of db sdk mb' ≡ genesis_seed_of db sdk mb
      → has_section is_protocol_creation mb.sections ≡ false
      → handle_microblock db sdk radix service p mb tx n ≡ done tt n'
      → handle_microblock db sdk radix service p' mb' tx' n' ≡ failed n'
  handle_microblock-replay p p' mb mb' tx tx' n n' first first' same other e =
      let used = handle_microblock-IsUsed p mb tx n n' first other e in
      used-refused p' mb' tx' n' first' (rw same used)
