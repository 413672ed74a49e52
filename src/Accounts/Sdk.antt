-- ===== src/Accounts/Sdk.antt =====
-- What the account handlers take from the SDK, and the radix tree that they update.
use carmentis_node.Base.{
  ◌-◌, if◌then◌else◌, ◌+◌, ℕ, ◌≡◌, Bool, false, List, Bytes, ◌%◌, ◌==◌, Result, ok,
}
use carmentis_node.Base.Effects.{Outcome, state_of}
use carmentis_node.Base.Ints.{ℤ, ◌+ℤ◌, ◌≤ℤ◌}
use carmentis_node.Database.Stores.{Table, table_id, Database}

-- `AccountState`. The list of locks is the SDK's.
pub record AccountState (Locks : Type 0) : Type 0 where
  pub height : ℕ
  pub balance : ℤ
  pub last_history_hash : Bytes
  pub locks : Locks

-- A `BalanceAvailability` object.
pub record Holding (Locks : Type 0) : Type 0 where
  pub balance : ℤ
  pub locks : Locks

-- `AccountHistoryEntry`; a text is its bytes.
pub record HistoryEntry (ChainReference : Type 0) : Type 0 where
  pub height : ℕ
  pub previous_history_hash : Bytes
  pub kind : ℕ
  pub public_reference : Bytes
  pub private_reference : Bytes
  pub timestamp : ℕ
  pub linked_account : Bytes
  pub amount : ℕ
  pub chain_reference : ChainReference

-- `Escrows`, an entry of the table of escrows.
pub record Escrow : Type 0 where
  pub payer_account : Bytes
  pub payee_account : Bytes
  pub agent_account : Bytes

pub record Sdk : Type 1 where
  pub sha256 : Bytes → Bytes
  pub null_hash : Bytes
  pub add_days_to_timestamp : ℕ → ℕ → ℕ
  -- the locks of an account and the parameters of vesting and escrow
  pub Locks : Type 0
  pub no_locks : Locks
  pub Vesting : Type 0
  pub EscrowTerms : Type 0
  pub escrow_identifier : EscrowTerms → Bytes
  pub transfer_authorizer : EscrowTerms → Bytes
  pub start_timestamp : EscrowTerms → ℕ
  pub duration_days : EscrowTerms → ℕ
  pub ChainReference : Type 0
  pub block_reference : ℕ → ChainReference
  -- the codecs
  pub encode_state : AccountState Locks → Bytes
  pub decode_state : Bytes → AccountState Locks
  pub decode-encode_state : (s : AccountState Locks) → decode_state (encode_state s) ≡ s
  pub encode_entry : HistoryEntry ChainReference → Bytes
  pub decode_entry : Bytes → HistoryEntry ChainReference
  pub decode-encode_entry : (e : HistoryEntry ChainReference) → decode_entry (encode_entry e) ≡ e
  pub encode_escrow : Escrow → Bytes
  pub decode_escrow : Bytes → Escrow
  pub decode-encode_escrow : (e : Escrow) → decode_escrow (encode_escrow e) ≡ e
  pub empty_record : Bytes
  -- `Economics` and `ECO`
  pub account_type : Bytes → ℕ
  pub is_allowed_transfer : ℕ → ℕ → Bool
  pub account_standard : ℕ
  pub bk_sent_issuance : ℕ
  pub bk_received_issuance : ℕ
  pub bk_sale : ℕ
  pub bk_received_vesting : ℕ
  pub bk_received_escrow : ℕ
  pub bk_sent_escrow_refund : ℕ
  pub bk_sent_expired_escrow : ℕ
  pub node_virtual_blockchain : ℕ
  -- `BalanceAvailability`; what changes an account may throw
  pub spendable : Holding Locks → ℤ
  pub staked : Holding Locks → ℕ
  pub add_spendable_tokens : Holding Locks → ℤ → Result (Holding Locks)
  pub add_vested_tokens : Holding Locks → ℤ → Vesting → Result (Holding Locks)
  pub add_escrowed_tokens : Holding Locks → ℤ → EscrowTerms → Result (Holding Locks)
  pub escrow_locks : Holding Locks → List EscrowTerms
  pub remove_escrow_lock : Holding Locks → Bytes → Result (ℕ × Holding Locks)
  pub get_node_staking_lock_amount : Holding Locks → Bytes → ℕ
  pub add_node_staking : Holding Locks → ℕ → Bytes → Result (Holding Locks)
  pub plan_node_staking_unlock : Holding Locks → ℕ → ℕ → Bytes → Result (Holding Locks)
  pub apply_node_staking_unlocks : Holding Locks → ℕ → ℕ × Holding Locks
  pub has_node_staking_locks : Holding Locks → Bool
  pub set_slashing : Holding Locks → Bytes → ℕ → Result (Holding Locks)
  pub cancel_node_slashing : Holding Locks → Bytes → Result (Holding Locks)
  pub apply_node_slashing : Holding Locks → ℕ → ℕ × Holding Locks
  pub apply_linear_vesting : Holding Locks → ℕ → ℕ × Holding Locks
  pub has_vesting_locks : Holding Locks → Bool
  -- a refund takes from its payer
  pub bk_sent_escrow_refund-even : bk_sent_escrow_refund % 2 ≡ 0
  -- adding tokens of any kind adds to the balance; what is spendable is part of the balance; a
  -- stake is part of the balance that is locked
  pub spendable-balance : (h : Holding Locks) → spendable h ≤ℤ h.balance
  pub add_spendable_tokens-balance :
      (h h' : Holding Locks) (n : ℤ)
      → add_spendable_tokens h n ≡ ok h'
      → h'.balance ≡ h.balance +ℤ n
  pub add_vested_tokens-balance :
      (h h' : Holding Locks) (n : ℤ) (v : Vesting)
      → add_vested_tokens h n v ≡ ok h'
      → h'.balance ≡ h.balance +ℤ n
  pub add_escrowed_tokens-balance :
      (h h' : Holding Locks) (n : ℤ) (e : EscrowTerms)
      → add_escrowed_tokens h n e ≡ ok h'
      → h'.balance ≡ h.balance +ℤ n
  pub add_node_staking-balance :
      (h h' : Holding Locks) (n : ℕ) (id : Bytes)
      → add_node_staking h n id ≡ ok h'
      → h'.balance ≡ h.balance
  pub add_node_staking-amount :
      (h h' : Holding Locks) (n : ℕ) (id : Bytes)
      → add_node_staking h n id ≡ ok h'
      → get_node_staking_lock_amount h' id ≡ get_node_staking_lock_amount h id + n

-- `BK_PLUS` is the lowest bit of a transfer type, which the handlers also flip by `^ 1`.
abbrev pub is_plus : ℕ → Bool
is_plus kind = kind % 2 == 1

abbrev pub flip : ℕ → ℕ
flip kind = if kind % 2 == 0 then kind + 1 else kind - 1

-- `RadixTree.set` on the tree of the account states: it touches the table of that tree alone.
pub record Radix (db : Database) : Type 0 where
  pub set : db.Store → Bytes → Bytes → Outcome db.Store (Unit {0})
  pub set-frame :
      (s : db.Store) (k v : Bytes) (t : Table) (j : Bytes)
      → (table_id t == table_id Table.token_radix) ≡ false
      → db.get_raw (state_of (set s k v)) t j ≡ db.get_raw s t j
