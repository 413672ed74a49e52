-- ===== src/Accounts/Examples.antt =====
-- The accounts at concrete inputs.
use carmentis_node.Base.{
  arith, ◌+◌, ◌≤◌, ℕ, ◌≡◌, refl, Bool, true, false, Option, none, some, List, [], ◌∷◌, Bytes,
  bytes_eq, ok, inr, if◌then◌else◌, ◌&&◌, thrown,
}
use carmentis_node.Base.Effects.{Outcome, done, failed, state_of}
use carmentis_node.Base.Ints.{pos}
use carmentis_node.Base.Maps.{find, insert, erase, add, has}
use carmentis_node.Database.Memory.{memory}
use carmentis_node.Database.Stores.{table_id}
use carmentis_node.Accounts.State.{World, save_account_state, load_account_information}
use carmentis_node.Accounts.History.{add_history_entry, get_history_entry_hash}
use carmentis_node.Accounts.Transfer.{
  Transfer, Context, add_tokens, update, update_side, check_payer, check_payee, token_transfer,
}
use carmentis_node.Accounts.Manager.{get_account_balance}
use carmentis_node.Accounts.Balances.{token_transfer-balance, moved_by}
use carmentis_node.Accounts.Examples.Worlds.{sdk, radix, world}
use carmentis_node.Base.Ints.{◌+ℤ◌, ◌≤ℤ◌, minus}
use carmentis_node.Accounts.Sdk.{Escrow}
use carmentis_node.Accounts.Escrow.{escrow_settlement, release, settle}
use carmentis_node.Accounts.Staking.{ProtocolState, stake, plan_unstake}
use carmentis_node.Accounts.Manager.{
  save_account_by_public_key, create_issuer_account, set_balance_for_account,
  load_account_by_public_key, load_account_id_by_public_key_hash, is_public_key_available,
}
use carmentis_node.Accounts.Checks.{
  can_pay, can_receive, token_transfer-checks, token_transfer-balance_nonneg,
}
use carmentis_node.Accounts.Chain.{next_entry, next_hash, update-history}
use carmentis_node.Accounts.Keys.{save_account_by_public_key-load, create_issuer_account_lem}
use carmentis_node.Accounts.Locks.{stake_lem, plan_unstake_lem, staked_on}
use carmentis_node.Accounts.Settlements.{
  escrow_settlement-refused, escrow_settlement-balance, settled, IsUnlocked,
}
use carmentis_node.Accounts.State.{get_escrow}
use carmentis_node.Accounts.History.{load_history}
use carmentis_node.Accounts.Frames.{state_of_account}
use carmentis_node.Accounts.Transfer.{signed_amount}
pub mod Codecs
pub mod Worlds

-- A purchase: account 1 sends 30 tokens to account 2.
abbrev purchase : Transfer sdk
purchase = record {
  kind = 12;
  payer_account = some (1 ∷ []);
  payee_account = some (2 ∷ []);
  amount_as_atomics = 30;
  fees_as_atomics = 1;
  vesting_parameters = none;
  escrow_parameters = none;
}

abbrev context : Context sdk
context = record {
  chain_reference = 4;
  timestamp = 1000;
  public_reference = [];
  private_reference = 8 ∷ [];
}

abbrev after_purchase : World memory
after_purchase = state_of (token_transfer sdk memory radix purchase context world)

purchase-done : token_transfer sdk memory radix purchase context world ≡ done tt after_purchase
unfolding token_transfer check_payer check_payee update_side update add_tokens add_history_entry
    save_account_state load_account_information get_history_entry_hash find insert add has table_id
    bytes_eq
purchase-done = refl

token_transfer-balance_example :
    get_account_balance sdk memory radix after_purchase (1 ∷ [])
    ≡ moved_by 13 30 (some (2 ∷ [])) (1 ∷ []) (
        moved_by 12 30
          (some (1 ∷ []))
          (1 ∷ [])
          (get_account_balance sdk memory radix world (1 ∷ [])))
token_transfer-balance_example =
    token_transfer-balance sdk memory radix purchase context world after_purchase purchase-done
      (1 ∷ [])

-- A purchase that costs more than the payer has.
abbrev too_much : Transfer sdk
too_much = record purchase { amount_as_atomics = 100 }

token_transfer-balance_nonneg_example :
    pos 0 ≤ℤ get_account_balance sdk memory radix after_purchase (1 ∷ [])
token_transfer-balance_nonneg_example =
    token_transfer-balance_nonneg sdk memory radix purchase context world after_purchase refl
      purchase-done (1 ∷ [])
      (unfold get_account_balance load_account_information find table_id bytes_eq in (omega arith))

abbrev after_update : World memory
after_update = state_of (update sdk memory radix 13 (2 ∷ []) none 30 context none none world)

update-done :
    update sdk memory radix 13 (2 ∷ []) none 30 context none none world ≡ done tt after_update
unfolding update add_tokens add_history_entry save_account_state load_account_information
    get_history_entry_hash find insert add has table_id bytes_eq
update-done = refl

update-history_example :
    load_history sdk memory radix after_update
      (state_of_account sdk memory radix after_update (2 ∷ [])).last_history_hash
      3
    ≡ ok (next_entry sdk memory radix world 13 (2 ∷ []) none 30 context ∷ [])
unfolding load_history find table_id bytes_eq get_history_entry_hash state_of_account
    load_account_information
update-history_example =
    update-history sdk memory radix 13 (2 ∷ []) none 30 context none none world after_update 2 []
      update-done refl refl refl

abbrev with_key : World memory
with_key = state_of (save_account_by_public_key sdk memory radix (1 ∷ []) (70 ∷ []) world)

abbrev issued : World memory
issued = state_of (create_issuer_account sdk memory radix (70 ∷ []) (3 ∷ []) 500 1000 world)

create_issuer_account-done :
    create_issuer_account sdk memory radix (70 ∷ []) (3 ∷ []) 500 1000 world ≡ done tt issued
unfolding create_issuer_account set_balance_for_account save_account_by_public_key add_history_entry
    save_account_state load_account_information get_history_entry_hash find insert add has table_id
    bytes_eq
create_issuer_account-done = refl

abbrev protocol : ProtocolState
protocol = record {
  minimum_node_staking_amount = 20;
  maximum_node_staking_amount = 90;
  unstaking_delay_in_days = 7;
}

abbrev after_stake : World memory
after_stake = state_of (stake sdk memory radix (1 ∷ []) 10 3 (6 ∷ []) protocol world)

stake-done : stake sdk memory radix (1 ∷ []) 10 3 (6 ∷ []) protocol world ≡ done tt after_stake
unfolding stake save_account_state load_account_information find insert add has table_id bytes_eq
stake-done = refl

stake_lem_example :
    staked_on sdk memory radix after_stake (1 ∷ []) (6 ∷ [])
    ≡ staked_on sdk memory radix world (1 ∷ []) (6 ∷ []) + 10
stake_lem_example =
    (stake_lem sdk memory radix (1 ∷ []) 10 3 (6 ∷ []) protocol world after_stake stake-done).1

abbrev planned : World memory
planned = state_of (plan_unstake sdk memory radix (1 ∷ []) 15 3 (6 ∷ []) 1000 protocol world)

plan_unstake-done :
    plan_unstake sdk memory radix (1 ∷ []) 15 3 (6 ∷ []) 1000 protocol world ≡ done tt planned
unfolding plan_unstake save_account_state load_account_information find insert add has table_id
    bytes_eq
plan_unstake-done = refl

other_agent :
    (escrow : Escrow)
    → get_escrow sdk memory radix world (5 ∷ []) ≡ some escrow
    → bytes_eq (51 ∷ []) escrow.agent_account ≡ false
unfolding find table_id bytes_eq
other_agent escrow e = ground (arith, e)

-- The agent refuses the escrow of 5 tokens.
abbrev refunded : World memory
refunded = state_of (escrow_settlement sdk memory radix (50 ∷ []) (5 ∷ []) false 1000 4 world)

escrow_settlement-done :
    escrow_settlement sdk memory radix (50 ∷ []) (5 ∷ []) false 1000 4 world ≡ done tt refunded
unfolding escrow_settlement settle release token_transfer check_payer check_payee update_side update
    add_tokens add_history_entry save_account_state load_account_information get_history_entry_hash
    find insert erase add has table_id bytes_eq
escrow_settlement-done = refl

escrow_settlement-balance_example :
    (escrow : Escrow) × (amount : ℕ) × (get_escrow sdk memory radix world (5 ∷ []) ≡ some escrow)
    × (50 ∷ [] ≡ escrow.agent_account)
    × IsUnlocked sdk memory radix escrow (5 ∷ []) amount world
    × ((j : Bytes)
        → get_account_balance sdk memory radix refunded j
          ≡ settled sdk memory radix false escrow amount j
              (get_account_balance sdk memory radix world j))
escrow_settlement-balance_example =
    escrow_settlement-balance sdk memory radix (50 ∷ []) (5 ∷ []) false 1000 4 world refunded
      escrow_settlement-done
