-- ===== src/Abci/Proposals.antt =====
-- The entries of a proposal and what it is filled with (`PrepareProposal` of AbciService.ts).
use carmentis_node.Base.{
  ap, Result-cases, ℕ, ◌≤◌, ◌≡◌, refl, sym, ◌*◌, inl, inr, Option, none, some, List, [], ◌∷◌, Bytes,
  length, leb, arith, Bool-cases, ok,
}
use mathlib.Core.Path.{subst}
use carmentis_node.Base.Maps.{has}
use carmentis_node.Base.Effects.{done_injective, done, bind-eq-done}
use carmentis_node.Database.Stores.{Database}
use carmentis_node.Accounts.Sdk.{Radix}
use carmentis_node.GlobalState.Types.{CometParameters, Microblock, Node, NodeSdk}
use carmentis_node.GlobalState.State.{get_protocol_state}
use carmentis_node.GlobalState.Days.{update_global_state_on_block}
use carmentis_node.GlobalState.Blocks.{clear_caches}
use carmentis_node.Abci.Runs.{Entry, Proposal, Limits, total_size, insert_by_fees, sort_by_fees}
use carmentis_node.Abci.Agreement.{AreDecoded}
use carmentis_node.Abci.Bounds.{IsWithin}
use carmentis_node.Abci.Service.{
  ServiceSdk, NodeConfig, max_microblocks, handle_microblock, handle_transaction,
  decode_transactions, new_updater, proposal_limits, fill_proposal, prepare_proposal,
}

max_microblocks-bound :
    (config : Option ℕ) (protocol : ℕ) → max_microblocks config protocol ≤ protocol
unfolding max_microblocks
max_microblocks-bound none protocol = ground arith
max_microblocks-bound (some config) protocol = ground arith

module _ (db : Database) (sdk : NodeSdk db) (radix : Radix db) (service : ServiceSdk db) where
  -- The working state of a block: nothing is cached, and the updater is new.
  abbrev pub cleared : Node db → Node db
  cleared n = record n {
    world = record { store = n.committed; modified = [] };
    content_to_be_written = [];
    cached_microblocks = [];
  }

  abbrev pub working_state : Node db → Node db
  working_state n = record (cleared n) { updater = new_updater db sdk radix service }

  -- The entries of a proposal: the transactions that are decoded, by their fees.
  abbrev pub entries_of : List Bytes → List Bytes → List (Entry Microblock)
  entries_of should_reject txs =
      sort_by_fees (decode_transactions db sdk radix service should_reject txs)

  abbrev entry_of : Microblock → Bytes → Entry Microblock
  entry_of mb tx = record { microblock = mb; tx = tx; fees_in_atomics = mb.gas * mb.gas_price }

  -- The entries are the transactions, decoded.
  abbrev Decoded : CometParameters → List (Entry Microblock) → Type 0
  Decoded p entries =
      AreDecoded (handle_microblock db sdk radix service p)
        (handle_transaction db sdk radix service p) entries

  abbrev pub empty_proposal : List Bytes → Proposal
  empty_proposal should_reject = record {
    proposed_txs = [];
    current_block_size_in_bytes = 0;
    should_reject = should_reject;
  }

  pub empty-IsWithin :
      (limits : Limits) (rejected : List Bytes) → IsWithin limits (empty_proposal rejected)
  unfolding total_size
  empty-IsWithin limits rejected = (refl, omega arith, omega arith)

  insert_by_fees-AreDecoded :
      (p : CometParameters) (e : Entry Microblock) (entries : List (Entry Microblock))
      → AreDecoded
          (handle_microblock db sdk radix service p)
          (handle_transaction db sdk radix service p)
          (e ∷ entries)
      → AreDecoded
          (handle_microblock db sdk radix service p)
          (handle_transaction db sdk radix service p)
          (insert_by_fees e entries)
  unfolding insert_by_fees
  insert_by_fees-AreDecoded p e [] decoded = decoded
  insert_by_fees-AreDecoded p e (f ∷ entries) (first, (second, rest)) =
      elim (Bool-cases (leb f.fees_in_atomics e.fees_in_atomics)) [
        | inl c ↦ rw c (first, (second, rest))
        | inr c ↦ rw c (second, insert_by_fees-AreDecoded p e entries (first, rest))
      ]

  pub sort_by_fees-AreDecoded :
      (p : CometParameters) (entries : List (Entry Microblock))
      → AreDecoded
          (handle_microblock db sdk radix service p)
          (handle_transaction db sdk radix service p)
          entries
      → AreDecoded
          (handle_microblock db sdk radix service p)
          (handle_transaction db sdk radix service p)
          (sort_by_fees entries)
  unfolding sort_by_fees
  sort_by_fees-AreDecoded p [] decoded = tt
  sort_by_fees-AreDecoded p (e ∷ entries) (first, rest) =
      insert_by_fees-AreDecoded p e (sort_by_fees entries)
        (first, sort_by_fees-AreDecoded p entries rest)

  handle_transaction-decoded :
      (p : CometParameters) (tx : Bytes) (mb : Microblock) (n : Node db)
      → service.load_from_serialized_microblock tx ≡ ok mb
      → handle_transaction db sdk radix service p tx n
        ≡ handle_microblock db sdk radix service p mb tx n
  unfolding handle_transaction
  handle_transaction-decoded p tx mb n h = rw h refl

  pub decode_transactions-AreDecoded :
      (p : CometParameters) (should_reject txs : List Bytes)
      → AreDecoded
          (handle_microblock db sdk radix service p)
          (handle_transaction db sdk radix service p)
          (decode_transactions db sdk radix service should_reject txs)
  unfolding decode_transactions
  decode_transactions-AreDecoded p should_reject [] = tt
  decode_transactions-AreDecoded p should_reject (tx ∷ txs) =
      let rest = decode_transactions-AreDecoded p should_reject txs in
      let more = decode_transactions db sdk radix service should_reject txs in
      let all = decode_transactions db sdk radix service should_reject (tx ∷ txs) in
      elim (Result-cases (service.load_from_serialized_microblock tx)) [
        | inl h ↦ let same : all ≡ more = ground (arith, h) in subst (Decoded p) (sym same) rest
        | inr (mb, h) ↦ elim (Bool-cases (has mb.hash should_reject)) [
          | inl c ↦
              let same : all ≡ more = ground (arith, h, c) in subst (Decoded p) (sym same) rest
          | inr c ↦
              let same : all ≡ entry_of mb tx ∷ more = ground (arith, h, c) in
              subst (Decoded p) (sym same) (λ n. handle_transaction-decoded p tx mb n h, rest)
        ]
      ]

  -- A proposal within the limits of its node is within the limits of the protocol.
  pub within-protocol :
      (config : NodeConfig) (n : Node db) (filled : Proposal)
      → IsWithin (proposal_limits db sdk radix service config n) filled
      → (length filled.proposed_txs
          ≤ (get_protocol_state db sdk n.world.store).max_microblocks_per_block)
        × (total_size filled.proposed_txs
            ≤ (get_protocol_state db sdk n.world.store).maximum_block_size_in_bytes)
  unfolding proposal_limits
  within-protocol config n filled (counted, size, count) =
      let protocol = get_protocol_state db sdk n.world.store in
      let bound =
        max_microblocks-bound config.max_microblocks_per_block protocol.max_microblocks_per_block in
      (omega (arith, count, bound), omega (arith, counted, size))

  -- What `PrepareProposal` does once the updates of the block have ended.
  pub prepare_proposal-filled :
      (config : NodeConfig) (p : CometParameters) (txs rejected proposed rejected' : List Bytes)
      (n n' : Node db)
      → prepare_proposal db sdk radix service config p txs rejected n
        ≡ done (proposed, rejected') n'
      → (m : Node db) × (update_global_state_on_block db sdk radix p (working_state n) ≡ done tt m)
        × ((fill_proposal db sdk radix service p
              (proposal_limits db sdk radix service config (working_state n))
              (entries_of rejected txs)
              rejected
              m).0.proposed_txs
            ≡ proposed)
        × ((fill_proposal db sdk radix service p
              (proposal_limits db sdk radix service config (working_state n))
              (entries_of rejected txs)
              rejected
              m).1
            ≡ n')
  unfolding prepare_proposal clear_caches proposal_limits
  prepare_proposal-filled config p txs rejected proposed rejected' n n' e =
      let (u, m, updated, rest) =
        bind-eq-done (update_global_state_on_block db sdk radix p (working_state n)) _ e in
      let (same, last) = done_injective rest in (m, updated, ap (λ q. q.0) same, last)
