-- ===== src/Abci/Examples.antt =====
-- A block that is proposed, checked and executed, at a concrete input.
use carmentis_node.Base.{
  ℕ, ◌⊎◌, false, ◌≤◌, ◌≡◌, refl, sym, ◌∙◌, true, none, some, List, [], ◌∷◌, Bytes, bytes_eq, arith,
  ok, ◌==◌, if◌then◌else◌, replicate,
}
use mathlib.Core.Path.{subst}
use carmentis_node.Base.Effects.{
  Outcome, done, failed, state_of, answer_of, answer_of-done, for_each, done_injective,
  done-ne-failed,
}
use carmentis_node.Base.Maps.{find, insert, erase, add, has}
use carmentis_node.Database.Memory.{memory}
use carmentis_node.Database.Stores.{table_id}
use carmentis_node.Accounts.State.{save_account_state, load_account_information}
use carmentis_node.Accounts.History.{add_history_entry, get_history_entry_hash}
use carmentis_node.Accounts.Transfer.{
  add_tokens, update, update_side, check_payer, check_payee, token_transfer,
}
use carmentis_node.Accounts.Manager.{get_account_balance, is_account_defined}
use carmentis_node.Accounts.Examples.Worlds.{radix}
use carmentis_node.Merkle.{
  check_tree_id, clz32, bit_length, add_tree_leaf, add_leaf, merge_up, fill_empty, set_node,
  get_node, size_to_height, node_key,
}
use carmentis_node.RadixTree.Read.{get_from_storage}
use carmentis_node.RadixTree.Nodes.{some_nonzero, put_part}
use carmentis_node.RadixTree.Write.{write, set_pair, update_node, node_bytes, replace_node}
use carmentis_node.Storage.Cached.{add_microblock_to_buffer}
use carmentis_node.GlobalState.Types.{Microblock, Node, CometParameters}
use carmentis_node.GlobalState.State.{
  get_protocol_state, get_block_information, get_protocol_virtual_blockchain_identifier,
  get_chain_information, is_protocol_vb_defined, store_microblock_hash_in_merkle_tree,
  store_virtual_blockchain_state, store_microblock,
}
use carmentis_node.GlobalState.Microblocks.{
  store_all, update_statistics, pay_fees, handle_update, apply_microblock, check_expiration,
  check_microblock, update_global_state_on_microblock,
}
use carmentis_node.GlobalState.Writers.{is_account_id_allowed_to_write, has_section}
use carmentis_node.GlobalState.Validators.{
  build_validator_set_update, comet_records, abci_records, all_referenced, set_powers,
}
use carmentis_node.GlobalState.Blocks.{clear_caches}
use carmentis_node.GlobalState.Days.{update_global_state_on_block}
use carmentis_node.GlobalState.Examples.Worlds.{sdk, node, tables, microblock, ledger, parameters}
use carmentis_node.Abci.Runs.{Entry, total_size, propose, sort_by_fees}
use carmentis_node.Abci.Service.{
  handle_transaction, exceeds_limits, ServiceSdk, NodeConfig, check_genesis_seed_uniqueness,
  check_microblock_local_state_consistency, handle_microblock, decode_transactions, proposal_limits,
  prepare_proposal, process_proposal, execute_block,
}
use carmentis_node.Abci.Agreement.{IsRefused, IsClean}
use carmentis_node.Abci.Bounds.{IsTaken, IsDescending, txs_of}
use carmentis_node.Abci.Proposals.{cleared, working_state, entries_of}
use carmentis_node.Abci.Replays.{handle_microblock-replay}
use carmentis_node.Abci.Acceptance.{
  prepare_proposal-limits, prepare_proposal-order, prepare_proposal-process_proposal,
  process_proposal-execute_block,
}

-- A microblock that names no payer, and pays less.
abbrev unpaid : Microblock
unpaid = record microblock { hash = 12 ∷ replicate 31 0; gas_price = 1; fees_payer_account = none }

abbrev service : ServiceSdk memory
service = record {
  load_from_serialized_microblock =
      λ tx. if bytes_eq tx (1 ∷ 2 ∷ []) then ok microblock else ok unpaid;
  is_signed = λ mb. true;
  check_virtual_blockchain_consistency = λ n mb. ok ledger;
  check_timestamp = λ mb timestamp. ok tt;
  check_gas = λ n mb. ok tt;
}

abbrev config : NodeConfig
config = record { max_microblocks_per_block = some 3; min_microblock_gas_price = 1 }

-- The unpaid microblock comes first.
abbrev txs : List Bytes
txs = (7 ∷ []) ∷ (1 ∷ 2 ∷ []) ∷ []

-- No validator node is known, and the day of the block is that of the block before.
abbrev known : Node memory
known = record node { committed = λ u. if u == 0x13 then [] else tables u }

abbrev today : CometParameters
today = record parameters { block_timestamp = 0 }

abbrev start : Node memory
start = working_state memory sdk radix service known

begun-done : update_global_state_on_block memory sdk radix today start ≡ done tt start
unfolding update_global_state_on_block find table_id for_each build_validator_set_update
    comet_records abci_records all_referenced set_powers bytes_eq get_block_information
begun-done = refl

abbrev paid_first : Entry Microblock
paid_first = record { microblock = microblock; tx = 1 ∷ 2 ∷ []; fees_in_atomics = 6 }

abbrev unpaid_second : Entry Microblock
unpaid_second = record { microblock = unpaid; tx = 7 ∷ []; fees_in_atomics = 2 }

-- The microblock with the higher fees comes first.
entries-sorted : entries_of memory sdk radix service [] txs ≡ paid_first ∷ unpaid_second ∷ []
unfolding decode_transactions sort_by_fees has bytes_eq
entries-sorted = refl

-- The unpaid microblock is refused before it changes anything.
unpaid-kept :
    (n n' : Node memory)
    → handle_microblock memory sdk radix service today unpaid (7 ∷ []) n ≡ failed n'
    → n' ≡ n
unfolding handle_microblock check_microblock_local_state_consistency check_genesis_seed_uniqueness
    update_global_state_on_microblock has_section is_protocol_vb_defined
unpaid-kept n n' e = ground (arith, e)

abbrev tried : Outcome (Node memory) (Unit {0})
tried = handle_microblock memory sdk radix service today microblock (1 ∷ 2 ∷ []) start

tried-done : answer_of tried ≡ some tt
unfolding handle_microblock check_microblock_local_state_consistency check_genesis_seed_uniqueness
    update_global_state_on_microblock has_section is_protocol_vb_defined check_microblock
    is_account_defined load_account_information get_account_balance check_expiration
    is_account_id_allowed_to_write apply_microblock handle_update pay_fees token_transfer
    check_payer check_payee update_side update add_tokens add_history_entry save_account_state
    get_history_entry_hash update_statistics store_all store_microblock_hash_in_merkle_tree
    store_virtual_blockchain_state store_microblock add_microblock_to_buffer set_pair write
    add_tree_leaf add_leaf merge_up fill_empty set_node get_node size_to_height bit_length clz32
    check_tree_id node_key node_bytes update_node replace_node put_part get_from_storage
    some_nonzero find insert erase add has table_id bytes_eq
tried-done = refl

abbrev rejected : List Bytes
rejected = (12 ∷ replicate 31 0) ∷ []

abbrev prepared : Outcome (Node memory) (List Bytes × List Bytes)
prepared = prepare_proposal memory sdk radix service config today txs [] known

prepared-answer : answer_of prepared ≡ some ((1 ∷ 2 ∷ []) ∷ [], rejected)
unfolding prepare_proposal decode_transactions sort_by_fees propose proposal_limits
    get_protocol_state get_protocol_virtual_blockchain_identifier get_chain_information clear_caches
    update_global_state_on_block for_each build_validator_set_update comet_records abci_records
    all_referenced set_powers get_block_information handle_microblock
    check_microblock_local_state_consistency check_genesis_seed_uniqueness
    update_global_state_on_microblock has_section is_protocol_vb_defined check_microblock
    is_account_defined load_account_information get_account_balance check_expiration
    is_account_id_allowed_to_write apply_microblock handle_update pay_fees token_transfer
    check_payer check_payee update_side update add_tokens add_history_entry save_account_state
    get_history_entry_hash update_statistics store_all store_microblock_hash_in_merkle_tree
    store_virtual_blockchain_state store_microblock add_microblock_to_buffer set_pair write
    add_tree_leaf add_leaf merge_up fill_empty set_node get_node size_to_height bit_length clz32
    check_tree_id node_key node_bytes update_node replace_node put_part get_from_storage
    some_nonzero find insert erase add has table_id bytes_eq
prepared-answer = refl

abbrev proposal_state : Node memory
proposal_state = state_of prepared

prepare_proposal-limits_example :
    (1 ≤ (get_protocol_state memory sdk known.committed).max_microblocks_per_block)
    × (total_size ((1 ∷ 2 ∷ []) ∷ [])
        ≤ (get_protocol_state memory sdk known.committed).maximum_block_size_in_bytes)
prepare_proposal-limits_example =
    prepare_proposal-limits memory sdk radix service config today txs [] ((1 ∷ 2 ∷ []) ∷ [])
      rejected known proposal_state (answer_of-done prepared prepared-answer)

prepare_proposal-order_example :
    (taken : List (Entry Microblock)) × ((1 ∷ 2 ∷ []) ∷ [] ≡ txs_of taken)
    × IsTaken taken (entries_of memory sdk radix service [] txs)
    × IsDescending taken
prepare_proposal-order_example =
    prepare_proposal-order memory sdk radix service config today txs [] ((1 ∷ 2 ∷ []) ∷ []) rejected
      known proposal_state (answer_of-done prepared prepared-answer)

-- The first microblock is accepted, and the second one changes nothing.
start-IsClean :
    IsClean
      (handle_microblock memory sdk radix service today)
      (paid_first ∷ unpaid_second ∷ [])
      start
start-IsClean = (
  λ n' refused. absurd (done-ne-failed (sym refused ∙ answer_of-done tried tried-done)),
  (unpaid-kept (state_of tried), tt),
)

entries-IsClean :
    (m : Node memory)
    → update_global_state_on_block memory sdk radix today start ≡ done tt m
    → IsClean
        (handle_microblock memory sdk radix service today)
        (entries_of memory sdk radix service [] txs)
        m
entries-IsClean m e =
    subst (λ l. IsClean (handle_microblock memory sdk radix service today) l m) (sym entries-sorted)
      (subst
        (λ n.
          IsClean (handle_microblock memory sdk radix service today)
            (paid_first ∷ unpaid_second ∷ []) n)
        (done_injective (sym begun-done ∙ e)).1 start-IsClean)

proposal-accepted :
    process_proposal memory sdk radix service today ((1 ∷ 2 ∷ []) ∷ []) known
    ≡ done true proposal_state
proposal-accepted =
    prepare_proposal-process_proposal memory sdk radix service config today txs []
      ((1 ∷ 2 ∷ []) ∷ []) rejected known proposal_state (answer_of-done prepared prepared-answer)
      entries-IsClean

prepare_proposal-process_proposal_example :
    process_proposal memory sdk radix service today ((1 ∷ 2 ∷ []) ∷ []) known
    ≡ done true proposal_state
prepare_proposal-process_proposal_example =
    prepare_proposal-process_proposal memory sdk radix service config today txs []
      ((1 ∷ 2 ∷ []) ∷ []) rejected known proposal_state (answer_of-done prepared prepared-answer)
      entries-IsClean

process_proposal-execute_block_example :
    ((exceeds_limits memory sdk radix service
          ((1 ∷ 2 ∷ []) ∷ [])
          (cleared memory sdk radix service known)
        ≡ true)
      × (true ≡ false))
    ⊎ ((true ≡ true)
        × (execute_block memory sdk radix service today ((1 ∷ 2 ∷ []) ∷ []) known
            ≡ done (0 ∷ []) proposal_state))
    ⊎ ((true ≡ false)
        × ((codes : List ℕ) × (n : Node memory) × (execute_block memory sdk radix service today
                ((1 ∷ 2 ∷ []) ∷ [])
                known
              ≡ done codes n)
            × IsRefused
                (handle_transaction memory sdk radix service today)
                ((1 ∷ 2 ∷ []) ∷ [])
                codes))
process_proposal-execute_block_example =
    process_proposal-execute_block memory sdk radix service today ((1 ∷ 2 ∷ []) ∷ []) known
      proposal_state true proposal-accepted

-- The same microblock again is refused.
handle_microblock-replay_example :
    handle_microblock memory sdk radix service today microblock (1 ∷ 2 ∷ []) (state_of tried)
    ≡ failed (state_of tried)
unfolding has_section
handle_microblock-replay_example =
    handle_microblock-replay memory sdk radix service today today microblock microblock (1 ∷ 2 ∷ [])
      (1 ∷ 2 ∷ []) start (state_of tried) refl refl refl refl (answer_of-done tried tried-done)
