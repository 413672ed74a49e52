-- ===== src/GlobalState/Examples/Blocks.antt =====
-- The blocks and their fees at concrete inputs.
use carmentis_node.Base.{
  ◌≡◌, refl, true, some, [], ◌∷◌, Bytes, bytes_eq, arith, ◌==◌, if◌then◌else◌, replicate,
}
use carmentis_node.Base.Maps.{find, insert, add, has}
use carmentis_node.Base.Effects.{done, failed, state_of}
use carmentis_node.Base.Ints.{pos}
use carmentis_node.Database.Memory.{memory}
use carmentis_node.Database.Stores.{Table, table_id}
use carmentis_node.Accounts.State.{save_account_state, load_account_information}
use carmentis_node.Accounts.History.{add_history_entry, get_history_entry_hash}
use carmentis_node.Accounts.Transfer.{
  add_tokens, update, update_side, check_payer, check_payee, token_transfer,
}
use carmentis_node.Accounts.Manager.{get_account_balance, get_staked_amount}
use carmentis_node.Accounts.Examples.Worlds.{radix}
use carmentis_node.Base.Doubles.{round_double, floor_quotient}
use carmentis_node.Fees.{dispatch}
use carmentis_node.RadixTree.Read.{get_from_storage}
use carmentis_node.RadixTree.Nodes.{some_nonzero}
use carmentis_node.GlobalState.Types.{ApplicationStateHashes, Node}
use carmentis_node.GlobalState.State.{
  get_validator_set, get_chain_information, get_block_information,
}
use carmentis_node.GlobalState.Days.{update_global_state_on_block}
use carmentis_node.GlobalState.Blocks.{
  FinalizeRequest, add_counts, paid_account, paid_accounts, pay_validator, pay_validators,
  dispatch_fees_among_validators, last_radix_hash, get_application_state_hashes,
  update_chain_information, finalize_block_approval,
}
use carmentis_node.GlobalState.Payments.{balance_of}
use carmentis_node.GlobalState.Dispatch.{dispatch_fees_among_validators-all}
use carmentis_node.GlobalState.Ends.{
  finalize_block_approval-stored, finalize_block_approval-duplicate,
}
use carmentis_node.GlobalState.Examples.Codecs.{encode_validator_set}
use carmentis_node.GlobalState.Examples.Worlds.{sdk, node, tables, parameters}

-- A block of height 5, with one vote of a validator that is not known: its fees wait.
abbrev request : FinalizeRequest
request = record {
  height = 5;
  time = 1000;
  hash = 1 ∷ [];
  proposer_address = 2 ∷ [];
  txs = (1 ∷ []) ∷ [];
  votes = record { is_commit = true; validator = some (9 ∷ replicate 19 0) } ∷ [];
}

abbrev finalized : Node memory
finalized = state_of (finalize_block_approval memory sdk radix request node)

abbrev answered : Bytes
answered = 9 ∷ 9 ∷ 60 ∷ 0 ∷ 3 ∷ []

finalize_block_approval-done :
    finalize_block_approval memory sdk radix request node ≡ done answered finalized
unfolding finalize_block_approval dispatch_fees_among_validators get_account_balance
    load_account_information paid_accounts paid_account get_validator_set update_chain_information
    get_chain_information get_application_state_hashes last_radix_hash get_from_storage some_nonzero
    add_counts find insert table_id bytes_eq
finalize_block_approval-done = refl

finalize_block_approval-stored_example :
    (hashes : ApplicationStateHashes) × (hashes.app_hash ≡ answered)
    × (get_block_information memory sdk finalized.world.store 5
        ≡ some (record {
          hash = 1 ∷ [];
          timestamp = 1000;
          proposer_address = 2 ∷ [];
          application_state_hashes = hashes;
          size = node.updater.block_size_in_bytes;
          microblock_count = 1;
        }))
    × ((get_chain_information memory sdk finalized.world.store).height ≡ 5)
    × ((get_chain_information memory sdk finalized.world.store).last_block_timestamp ≡ 1000)
    × (memory.get_raw finalized.world.store Table.block_content (sdk.convert_height_to_table_key 5)
        ≡ some (sdk.encode_block_content node.updater.processed_and_accepted_microblocks))
    × (memory.get_raw finalized.world.store Table.block_modified_accounts
          (sdk.convert_height_to_table_key 5)
        ≡ some (sdk.encode_modified_accounts finalized.world.modified))
finalize_block_approval-stored_example =
    finalize_block_approval-stored memory sdk radix request node finalized answered
      finalize_block_approval-done

finalize_block_approval-duplicate_example :
    update_global_state_on_block memory sdk radix parameters finalized ≡ failed finalized
finalize_block_approval-duplicate_example =
    finalize_block_approval-duplicate memory sdk radix request parameters node finalized answered
      finalize_block_approval-done refl

-- The validator of the vote is known, with its node: its account gets the fees of 7.
abbrev known : Node memory
known = record node {
  world = record {
    store = λ u.
        if u == 0x10
        then (
          9 ∷ replicate 19 0,
          encode_validator_set (record {
            validator_node_hash = 4 ∷ [];
            public_key_type = 5 ∷ [];
            public_key_bytes = 9 ∷ [];
            voting_power = 4;
          }),
        )
          ∷ []
        else tables u;
    modified = [];
  };
}

paid_accounts-done :
    paid_accounts memory sdk radix request.votes known ≡ done ((1 ∷ [], 40) ∷ []) known
unfolding paid_accounts paid_account get_validator_set get_staked_amount find table_id bytes_eq
paid_accounts-done = refl

abbrev dispatched : Node memory
dispatched = state_of (dispatch_fees_among_validators memory sdk radix request known)

dispatch_fees_among_validators-done :
    dispatch_fees_among_validators memory sdk radix request known ≡ done tt dispatched
unfolding dispatch_fees_among_validators get_account_balance load_account_information paid_accounts
    paid_account get_validator_set get_staked_amount pay_validators pay_validator token_transfer
    check_payer check_payee update_side update add_tokens add_history_entry save_account_state
    get_history_entry_hash find insert add has table_id bytes_eq dispatch round_double
    floor_quotient
dispatch_fees_among_validators-done = refl

dispatch_fees_among_validators-all_example :
    balance_of memory sdk radix dispatched (77 ∷ []) ≡ pos 0
unfolding bytes_eq
dispatch_fees_among_validators-all_example =
    dispatch_fees_among_validators-all memory sdk radix request 7 ((1 ∷ [], 40) ∷ []) known
      dispatched
      (unfold get_account_balance load_account_information find table_id bytes_eq in refl)
      paid_accounts-done (omega arith) (refl, tt) dispatch_fees_among_validators-done
