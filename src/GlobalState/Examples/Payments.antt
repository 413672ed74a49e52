-- ===== src/GlobalState/Examples/Payments.antt =====
-- A microblock that pays its fees, at a concrete input.
use carmentis_node.Base.{◌≡◌, refl, some, [], ◌∷◌, Bytes, bytes_eq}
use carmentis_node.Base.Maps.{find, insert, erase, add, has}
use carmentis_node.Base.Effects.{done, state_of, answer_of, answer_of-done}
use carmentis_node.Database.Memory.{memory}
use carmentis_node.Database.Stores.{table_id}
use carmentis_node.Accounts.State.{save_account_state, load_account_information}
use carmentis_node.Accounts.History.{add_history_entry, get_history_entry_hash}
use carmentis_node.Accounts.Transfer.{
  add_tokens, update, update_side, check_payer, check_payee, token_transfer,
}
use carmentis_node.Accounts.Manager.{get_account_balance, is_account_defined}
use carmentis_node.Accounts.Examples.Worlds.{radix}
use carmentis_node.Merkle.{
  check_tree_id, clz32, bit_length, add_tree_leaf, add_leaf, merge_up, fill_empty, set_node,
  get_node, size_to_height, node_key,
}
use carmentis_node.RadixTree.Read.{get_from_storage}
use carmentis_node.RadixTree.Nodes.{some_nonzero, put_part}
use carmentis_node.RadixTree.Write.{write, set_pair, update_node, node_bytes, replace_node}
use carmentis_node.Storage.Cached.{add_microblock_to_buffer}
use carmentis_node.GlobalState.Types.{Node}
use carmentis_node.GlobalState.State.{
  is_protocol_vb_defined, store_microblock_hash_in_merkle_tree, store_virtual_blockchain_state,
  store_microblock,
}
use carmentis_node.GlobalState.Microblocks.{
  check_expiration, check_microblock, handle_update, pay_fees, update_statistics, store_all,
  apply_microblock, update_global_state_on_microblock, fees_to_pay,
}
use carmentis_node.GlobalState.Writers.{has_section, is_account_id_allowed_to_write}
use carmentis_node.GlobalState.Checks.{IsPayable}
use carmentis_node.Accounts.Balances.{paid_by}
use carmentis_node.GlobalState.Payments.{balance_of, update_global_state_on_microblock-balance}
use carmentis_node.GlobalState.Examples.Worlds.{sdk, node, microblock, ledger, parameters}

abbrev accepted : Node memory
accepted = state_of (
    update_global_state_on_microblock memory sdk radix ledger microblock parameters (1 ∷ 2 ∷ [])
      node)

update_global_state_on_microblock-done :
    answer_of (
      update_global_state_on_microblock memory sdk radix ledger microblock parameters
        (1 ∷ 2 ∷ [])
        node)
    ≡ some tt
unfolding update_global_state_on_microblock has_section is_protocol_vb_defined check_microblock
    is_account_defined load_account_information get_account_balance check_expiration
    is_account_id_allowed_to_write apply_microblock handle_update pay_fees token_transfer
    check_payer check_payee update_side update add_tokens add_history_entry save_account_state
    get_history_entry_hash update_statistics store_all store_microblock_hash_in_merkle_tree
    store_virtual_blockchain_state store_microblock add_microblock_to_buffer set_pair write
    add_tree_leaf add_leaf merge_up fill_empty set_node get_node size_to_height bit_length clz32
    check_tree_id node_key node_bytes update_node replace_node put_part get_from_storage
    some_nonzero find insert erase add has table_id bytes_eq
update_global_state_on_microblock-done = refl

update_global_state_on_microblock-balance_example :
    IsPayable memory sdk radix (1 ∷ []) ledger microblock node
    × (handled : Node memory) × (handle_update memory sdk radix ledger microblock
          (fees_to_pay microblock)
          node
        ≡ done tt handled)
    × ((j : Bytes)
        → balance_of memory sdk radix accepted j
          ≡ paid_by (1 ∷ []) (77 ∷ []) 6 j (balance_of memory sdk radix handled j))
unfolding has_section
update_global_state_on_microblock-balance_example =
    update_global_state_on_microblock-balance memory sdk radix (1 ∷ []) ledger microblock parameters
      (1 ∷ 2 ∷ []) node accepted refl refl
      (answer_of-done
        (update_global_state_on_microblock memory sdk radix ledger microblock parameters
          (1 ∷ 2 ∷ []) node)
        update_global_state_on_microblock-done)
