-- ===== src/Abci/Acceptance.antt =====
-- What a block goes through: it is proposed, checked by the others, and executed (`PrepareProposal`,
-- `ProcessProposal` and `FinalizeBlock` of AbciService.ts).
use carmentis_node.Base.{
  ◌⊎◌, Bool, ap, ℕ, ◌≤◌, ◌≡◌, sym, ◌∙◌, true, false, inl, inr, List, Bytes, length, replicate,
  arith, Bool-cases,
}
use mathlib.Core.Path.{subst}
use carmentis_node.Base.Effects.{done_injective, done, bind-eq-done}
use carmentis_node.Database.Stores.{Database}
use carmentis_node.Accounts.Sdk.{Radix}
use carmentis_node.GlobalState.Types.{CometParameters, Microblock, Node, NodeSdk}
use carmentis_node.GlobalState.State.{get_protocol_state}
use carmentis_node.GlobalState.Days.{update_global_state_on_block}
use carmentis_node.GlobalState.Blocks.{clear_caches}
use carmentis_node.Abci.Runs.{finalize, Entry, total_size, process, sort_by_fees}
use carmentis_node.Abci.Agreement.{
  process-IsRefused, IsRefused, IsClean, propose-process, process-finalize,
}
use carmentis_node.Abci.Bounds.{
  IsTaken, IsDescending, txs_of, propose-IsWithin, propose-IsTaken, sort_by_fees-IsDescending,
  IsTaken-IsDescending,
}
use carmentis_node.Abci.Service.{
  ServiceSdk, NodeConfig, handle_microblock, handle_transaction, decode_transactions,
  proposal_limits, fill_proposal, prepare_proposal, exceeds_limits, process_proposal, execute_block,
}
use carmentis_node.Abci.Proposals.{
  cleared, working_state, entries_of, empty_proposal, empty-IsWithin, sort_by_fees-AreDecoded,
  decode_transactions-AreDecoded, within-protocol, prepare_proposal-filled,
}

module _ (db : Database) (sdk : NodeSdk db) (radix : Radix db) (service : ServiceSdk db) where
  -- What `PrepareProposal` proposes is within the limits of the protocol.
  pub prepare_proposal-limits :
      (config : NodeConfig) (p : CometParameters) (txs rejected proposed rejected' : List Bytes)
      (n n' : Node db)
      → prepare_proposal db sdk radix service config p txs rejected n
        ≡ done (proposed, rejected') n'
      → (length proposed ≤ (get_protocol_state db sdk n.committed).max_microblocks_per_block)
        × (total_size proposed
            ≤ (get_protocol_state db sdk n.committed).maximum_block_size_in_bytes)
  prepare_proposal-limits config p txs rejected proposed rejected' n n' e =
      let (m, updated, same, last) =
        prepare_proposal-filled db sdk radix service config p txs rejected proposed rejected' n n'
          e in
      let limits =
        proposal_limits db sdk radix service config (working_state db sdk radix service n) in
      let filled =
        (fill_proposal db sdk radix service p limits (entries_of db sdk radix service rejected txs)
          rejected m).0 in
      let within =
        propose-IsWithin (λ mb. mb.hash) (handle_microblock db sdk radix service p) limits
          (entries_of db sdk radix service rejected txs)
          (empty_proposal db sdk radix service rejected) m
          (empty-IsWithin db sdk radix service limits rejected) in
      subst
        (λ txs'.
          (length txs' ≤ (get_protocol_state db sdk n.committed).max_microblocks_per_block)
          × (total_size txs' ≤ (get_protocol_state db sdk n.committed).maximum_block_size_in_bytes))
        same
        (within-protocol db sdk radix service config (working_state db sdk radix service n) filled
          within)

  -- The transactions are proposed in the order of their fees, the highest first.
  pub prepare_proposal-order :
      (config : NodeConfig) (p : CometParameters) (txs rejected proposed rejected' : List Bytes)
      (n n' : Node db)
      → prepare_proposal db sdk radix service config p txs rejected n
        ≡ done (proposed, rejected') n'
      → (taken : List (Entry Microblock)) × (proposed ≡ txs_of taken)
        × IsTaken taken (entries_of db sdk radix service rejected txs)
        × IsDescending taken
  prepare_proposal-order config p txs rejected proposed rejected' n n' e =
      let (m, updated, same, last) =
        prepare_proposal-filled db sdk radix service config p txs rejected proposed rejected' n n'
          e in
      let limits =
        proposal_limits db sdk radix service config (working_state db sdk radix service n) in
      let entries = decode_transactions db sdk radix service rejected txs in
      let (taken, is_taken, more) =
        propose-IsTaken (λ mb. mb.hash) (handle_microblock db sdk radix service p) limits
          (sort_by_fees entries) (empty_proposal db sdk radix service rejected) m in
      (
        taken,
        sym same ∙ more,
        is_taken,
        IsTaken-IsDescending is_taken (sort_by_fees-IsDescending entries),
      )

  -- The limits that `ProcessProposal` checks.
  exceeds_limits-false :
      (txs : List Bytes) (n : Node db)
      → length txs ≤ (get_protocol_state db sdk n.world.store).max_microblocks_per_block
      → total_size txs ≤ (get_protocol_state db sdk n.world.store).maximum_block_size_in_bytes
      → exceeds_limits db sdk radix service txs n ≡ false
  unfolding exceeds_limits
  exceeds_limits-false txs n count size = ground (arith, count, size)

  -- Where every microblock that is refused leaves the state as it was, what a node proposes is
  -- accepted by a node that has committed the same, and both reach the same state.
  pub prepare_proposal-process_proposal :
      (config : NodeConfig) (p : CometParameters) (txs rejected proposed rejected' : List Bytes)
      (n n' : Node db)
      → prepare_proposal db sdk radix service config p txs rejected n
        ≡ done (proposed, rejected') n'
      → ((m : Node db)
          → update_global_state_on_block db sdk radix p (working_state db sdk radix service n)
            ≡ done tt m
          → IsClean
              (handle_microblock db sdk radix service p)
              (entries_of db sdk radix service rejected txs)
              m)
      → process_proposal db sdk radix service p proposed n ≡ done true n'
  unfolding process_proposal clear_caches
  prepare_proposal-process_proposal config p txs rejected proposed rejected' n n' e clean =
      let (m, updated, same, last) =
        prepare_proposal-filled db sdk radix service config p txs rejected proposed rejected' n n'
          e in
      let (count, size) = prepare_proposal-limits config p txs rejected proposed rejected' n n' e in
      let limits =
        proposal_limits db sdk radix service config (working_state db sdk radix service n) in
      let decoded =
        sort_by_fees-AreDecoded db sdk radix service p
          (decode_transactions db sdk radix service rejected txs)
          (decode_transactions-AreDecoded db sdk radix service p rejected txs) in
      let (txs', more, accepted) =
        propose-process (handle_microblock db sdk radix service p) (λ mb. mb.hash)
          (handle_transaction db sdk radix service p) limits
          (entries_of db sdk radix service rejected txs)
          (empty_proposal db sdk radix service rejected) m decoded (clean m updated) in
      let ran : process (handle_transaction db sdk radix service p) proposed m ≡ (true, n') =
        subst (λ t. process (handle_transaction db sdk radix service p) t m ≡ (true, n'))
          (sym more ∙ same) (accepted ∙ ap (λ z. (true, z)) last) in
      let fits = exceeds_limits-false proposed (cleared db sdk radix service n) count size in
      ground (arith, fits, updated, ran)

  -- What `ProcessProposal` and the execution of `FinalizeBlock` do once the updates of the block
  -- have ended.
  process_proposal-ran :
      (p : CometParameters) (txs : List Bytes) (n n' : Node db) (accepted : Bool)
      → process_proposal db sdk radix service p txs n ≡ done accepted n'
      → exceeds_limits db sdk radix service txs (cleared db sdk radix service n) ≡ false
      → (m : Node db) × (process (handle_transaction db sdk radix service p) txs m ≡ (accepted, n'))
        × (execute_block db sdk radix service p txs n
            ≡ done
                (finalize (handle_transaction db sdk radix service p) txs m).0
                (finalize (handle_transaction db sdk radix service p) txs m).1)
  unfolding process_proposal execute_block clear_caches
  process_proposal-ran p txs n n' accepted e fits =
      let (u, m, updated, rest) =
        bind-eq-done
          (update_global_state_on_block db sdk radix p (working_state db sdk radix service n))
          (λ ended m.
            done (process (handle_transaction db sdk radix service p) txs m).0
              (process (handle_transaction db sdk radix service p) txs m).1)
          {b = accepted} {s' = n'} (ground (arith, fits, e)) in
      let (answer, last) = done_injective rest in
      (m, ground (arith, answer, last), ground (arith, updated))

  process_proposal-exceeds :
      (p : CometParameters) (txs : List Bytes) (n n' : Node db) (accepted : Bool)
      → process_proposal db sdk radix service p txs n ≡ done accepted n'
      → exceeds_limits db sdk radix service txs (cleared db sdk radix service n) ≡ true
      → accepted ≡ false
  unfolding process_proposal clear_caches
  process_proposal-exceeds p txs n n' accepted e exceeds = ground (arith, exceeds, e)

  -- Where `ProcessProposal` answers, the block exceeds the limits and is rejected; or it is accepted,
  -- and its execution gives the code 0 to every transaction and reaches the state that was checked;
  -- or it is rejected, and its execution gives the code 1 to a transaction, and 0 to those before it.
  pub process_proposal-execute_block :
      (p : CometParameters) (txs : List Bytes) (n n' : Node db) (accepted : Bool)
      → process_proposal db sdk radix service p txs n ≡ done accepted n'
      → ((exceeds_limits db sdk radix service txs (cleared db sdk radix service n) ≡ true)
          × (accepted ≡ false))
        ⊎ ((accepted ≡ true)
            × (execute_block db sdk radix service p txs n ≡ done (replicate (length txs) 0) n'))
        ⊎ ((accepted ≡ false)
            × ((codes : List ℕ) × (n'' : Node db) × (execute_block db sdk radix service p txs n
                  ≡ done codes n'')
                × IsRefused (handle_transaction db sdk radix service p) txs codes))
  process_proposal-execute_block p txs n n' accepted e =
      elim (Bool-cases (exceeds_limits db sdk radix service txs (cleared db sdk radix service n))) [
        | inl exceeds ↦ inl (exceeds, process_proposal-exceeds p txs n n' accepted e exceeds)
        | inr fits ↦
            let run = handle_transaction db sdk radix service p in
            let (m, ran, executed) = process_proposal-ran p txs n n' accepted e fits in
            elim (Bool-cases accepted) [
              | inl taken_all ↦
                  let all = process-finalize run txs m n' (ran ∙ ap (λ b. (b, n')) taken_all) in
                  inr (inl (taken_all, executed ∙ ap (λ z. done z.0 z.1) all))
              | inr refused ↦ inr (
                  inr (
                    refused,
                    (
                      (finalize run txs m).0,
                      (finalize run txs m).1,
                      executed,
                      process-IsRefused run txs m n' (ran ∙ ap (λ b. (b, n')) refused),
                    ),
                  ))
            ]
      ]
