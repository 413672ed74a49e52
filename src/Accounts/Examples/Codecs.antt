-- ===== src/Accounts/Examples/Codecs.antt =====
-- Codecs of the states, the entries and the escrows for the examples.
use carmentis_node.Base.{
  ℕ, zero, suc, ◌≡◌, refl, List, [], ◌∷◌, ◌++◌, Bytes, arith, length, take, drop,
}
use carmentis_node.Base.Cuts.{take-append, drop-append}
use carmentis_node.Base.Ints.{pos, negsuc}
use carmentis_node.Accounts.Sdk.{AccountState, HistoryEntry, Escrow}

-- A string behind its length.
abbrev pub join : Bytes → Bytes → Bytes
join a rest = length a ∷ (a ++ rest)

abbrev pub split : Bytes → Bytes × Bytes
split [] = ([], [])
split (n ∷ l) = (take n l, drop n l)

pub split-join : (a rest : Bytes) → split (join a rest) ≡ (a, rest)
split-join a rest =
    ground (arith, take-append a rest (length a) refl, drop-append a rest (length a) 0 refl)

-- The locks: what is staked, and the amounts in escrow.
abbrev pub Amounts : Type 0
Amounts = ℕ × List ℕ

abbrev pub encode_state : AccountState Amounts → Bytes
encode_state s =
    s.height ∷ (elim s.balance [ pos n ↦ 0 ∷ n ∷ [] | negsuc n ↦ 1 ∷ n ∷ [] ])
    ++ (s.locks.0 ∷ join s.last_history_hash s.locks.1)

abbrev pub decode_state : Bytes → AccountState Amounts
decode_state (height ∷ sign ∷ n ∷ stake ∷ l) = record {
  height = height;
  balance = elim sign [ zero ↦ pos n | suc k ↦ negsuc n ];
  last_history_hash = (split l).0;
  locks = (stake, (split l).1);
}
decode_state l = record { height = 0; balance = pos 0; last_history_hash = []; locks = (0, []) }

pub decode-encode_state : (s : AccountState Amounts) → decode_state (encode_state s) ≡ s
decode-encode_state s = ground (arith, split-join s.last_history_hash s.locks.1)

abbrev pub encode_entry : HistoryEntry ℕ → Bytes
encode_entry e =
    e.height
    ∷ e.kind
    ∷ e.timestamp
    ∷ e.amount
    ∷ e.chain_reference
    ∷ join e.previous_history_hash
        (join e.public_reference (join e.private_reference (join e.linked_account [])))

abbrev pub decode_entry : Bytes → HistoryEntry ℕ
decode_entry (height ∷ kind ∷ timestamp ∷ amount ∷ chain_reference ∷ l) =
    let (previous, l1) = split l in
    let (public_reference, l2) = split l1 in
    let (private_reference, l3) = split l2 in
    record {
      height = height;
      previous_history_hash = previous;
      kind = kind;
      public_reference = public_reference;
      private_reference = private_reference;
      timestamp = timestamp;
      linked_account = (split l3).0;
      amount = amount;
      chain_reference = chain_reference;
    }
decode_entry l = record {
  height = 0;
  previous_history_hash = [];
  kind = 0;
  public_reference = [];
  private_reference = [];
  timestamp = 0;
  linked_account = [];
  amount = 0;
  chain_reference = 0;
}

pub decode-encode_entry : (e : HistoryEntry ℕ) → decode_entry (encode_entry e) ≡ e
decode-encode_entry e =
    let l3 = join e.linked_account [] in
    let l2 = join e.private_reference l3 in
    let l1 = join e.public_reference l2 in
    ground (
      arith,
      split-join e.previous_history_hash l1,
      split-join e.public_reference l2,
      split-join e.private_reference l3,
      split-join e.linked_account [],
    )

abbrev pub encode_escrow : Escrow → Bytes
encode_escrow e = join e.payer_account (join e.payee_account (join e.agent_account []))

abbrev pub decode_escrow : Bytes → Escrow
decode_escrow l =
    let (payer, l1) = split l in
    let (payee, l2) = split l1 in
    record { payer_account = payer; payee_account = payee; agent_account = (split l2).0 }

pub decode-encode_escrow : (e : Escrow) → decode_escrow (encode_escrow e) ≡ e
decode-encode_escrow e =
    let l2 = join e.agent_account [] in
    ground (
      arith,
      split-join e.payer_account (join e.payee_account l2),
      split-join e.payee_account l2,
      split-join e.agent_account [],
    )
