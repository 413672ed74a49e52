-- ===== src/Accounts/Examples/Worlds.antt =====
-- An SDK, a database in memory and a first world for the examples.
use carmentis_node.Base.{
  refl, ℕ, ◌+◌, ◌≡◌, true, false, [], ◌∷◌, Bytes, arith, Result, ok, ==_iff, ◌==◌, if◌then◌else◌,
}
use carmentis_node.Base.Effects.{done}
use carmentis_node.Base.Ints.{ℤ, pos, ◌+ℤ◌}
use carmentis_node.Database.Memory.{Tables, memory, read_table, write_table, read-write}
use carmentis_node.Database.Stores.{Table, table_id}
use carmentis_node.Accounts.Sdk.{Sdk, AccountState, Holding, Radix}
use carmentis_node.Accounts.State.{World}
use carmentis_node.Accounts.Examples.Codecs.{
  Amounts, encode_state, decode_state, decode-encode_state, encode_entry, decode_entry,
  decode-encode_entry, encode_escrow, decode_escrow, decode-encode_escrow,
}

abbrev pub add_to : Holding Amounts → ℤ → Result (Holding Amounts)
add_to h n = ok (record { balance = h.balance +ℤ n; locks = h.locks })

pub add_to-balance :
    (h h' : Holding Amounts) (n : ℤ) → add_to h n ≡ ok h' → h'.balance ≡ h.balance +ℤ n
add_to-balance h h' n e = ground (arith, e)

abbrev pub stake_more : Holding Amounts → ℕ → Bytes → Result (Holding Amounts)
stake_more h n id = ok (record { balance = h.balance; locks = (h.locks.0 + n, h.locks.1) })

pub stake_more-balance :
    (h h' : Holding Amounts) (n : ℕ) (id : Bytes)
    → stake_more h n id ≡ ok h'
    → h'.balance ≡ h.balance
stake_more-balance h h' n id e = ground (arith, e)

pub stake_more-amount :
    (h h' : Holding Amounts) (n : ℕ) (id : Bytes)
    → stake_more h n id ≡ ok h'
    → h'.locks.0 ≡ h.locks.0 + n
stake_more-amount h h' n id e = ground (arith, e)

abbrev pub sdk : Sdk
sdk = record {
  sha256 = λ b. 9 ∷ b;
  null_hash = [];
  add_days_to_timestamp = λ t d. t + d;
  Locks = Amounts;
  no_locks = (0, []);
  Vesting = ℕ;
  EscrowTerms = ℕ;
  escrow_identifier = λ t. t ∷ [];
  transfer_authorizer = λ t. 50 ∷ [];
  start_timestamp = λ t. 0;
  duration_days = λ t. 30;
  ChainReference = ℕ;
  block_reference = λ height. height;
  encode_state = encode_state;
  decode_state = decode_state;
  decode-encode_state = decode-encode_state;
  encode_entry = encode_entry;
  decode_entry = decode_entry;
  decode-encode_entry = decode-encode_entry;
  encode_escrow = encode_escrow;
  decode_escrow = decode_escrow;
  decode-encode_escrow = decode-encode_escrow;
  empty_record = [];
  account_type = λ a. 1;
  is_allowed_transfer = λ a k. true;
  account_standard = 1;
  bk_sent_issuance = 0;
  bk_received_issuance = 1;
  bk_sale = 2;
  bk_received_vesting = 5;
  bk_received_escrow = 7;
  bk_sent_escrow_refund = 8;
  bk_sent_escrow_refund-even = refl;
  bk_sent_expired_escrow = 10;
  node_virtual_blockchain = 3;
  spendable = λ h. h.balance;
  staked = λ h. h.locks.0;
  add_spendable_tokens = add_to;
  add_vested_tokens = λ h n v. add_to h n;
  add_escrowed_tokens = λ h n t. add_to h n;
  escrow_locks = λ h. h.locks.1;
  remove_escrow_lock = λ h id. ok (5, h);
  get_node_staking_lock_amount = λ h id. h.locks.0;
  add_node_staking = stake_more;
  plan_node_staking_unlock = λ h n t id. ok h;
  apply_node_staking_unlocks = λ h t. (0, h);
  has_node_staking_locks = λ h. true;
  set_slashing = λ h id t. ok h;
  cancel_node_slashing = λ h id. ok h;
  apply_node_slashing = λ h t. (0, h);
  apply_linear_vesting = λ h t. (0, h);
  has_vesting_locks = λ h. true;
  spendable-balance = λ h. omega arith;
  add_spendable_tokens-balance = add_to-balance;
  add_vested_tokens-balance = λ h h' n v. add_to-balance h h' n;
  add_escrowed_tokens-balance = λ h h' n t. add_to-balance h h' n;
  add_node_staking-balance = stake_more-balance;
  add_node_staking-amount = stake_more-amount;
}

pub set_pair-elsewhere :
    (s : Tables) (k v : Bytes) (t : Table) (j : Bytes)
    → (table_id t == table_id Table.token_radix) ≡ false
    → read_table (write_table s Table.token_radix k v) t j ≡ read_table s t j
set_pair-elsewhere s k v t j other = ground (
  arith,
  other,
  read-write s Table.token_radix t k j v,
  ==_iff (table_id t) (table_id Table.token_radix),
  ==_iff (table_id Table.token_radix) (table_id t),
)

abbrev pub radix : Radix memory
radix = record {
  set = λ s k v. done tt (write_table s Table.token_radix k v);
  set-frame = set_pair-elsewhere;
}

-- An account with 100 tokens, of which 40 are staked; an escrow of 5 tokens.
abbrev pub rich : AccountState Amounts
rich = record { height = 1; balance = pos 100; last_history_hash = []; locks = (40, 5 ∷ []) }

abbrev pub open_escrow : Bytes
open_escrow =
    encode_escrow
      (record { payer_account = 2 ∷ []; payee_account = 1 ∷ []; agent_account = 50 ∷ [] })

abbrev pub tables : Tables
tables u =
    if u == 0x0a
    then (1 ∷ [], encode_state rich) ∷ (2 ∷ [], encode_state rich) ∷ []
    else if u == 0x0f
    then (5 ∷ [], open_escrow) ∷ []
    else []

abbrev pub world : World memory
world = record { store = tables; modified = [] }
