-- ===== src/Abci/Runs.antt =====
-- The loops over the transactions of a block (`PrepareProposal`, `ProcessProposal` and
-- `FinalizeBlock` of AbciService.ts), for any treatment of one microblock.
use carmentis_node.Base.{
  ℕ, ◌+◌, Bool, true, false, List, [], ◌∷◌, ◌++◌, Bytes, length, ltb, leb, if◌then◌else◌,
}
use carmentis_node.Base.Maps.{add, has}
use carmentis_node.Base.Effects.{Action, done, failed}

-- An element of `microblocks` in `PrepareProposal`, with the microblock that is parsed again there.
pub record Entry (M : Type 0) : Type 0 where
  pub microblock : M
  pub tx : Bytes
  pub fees_in_atomics : ℕ

-- What `PrepareProposal` has put together so far, and the hashes of the microblocks that
-- `EarlyMicroblockRejectionService` rejects.
pub record Proposal : Type 0 where
  pub proposed_txs : List Bytes
  pub current_block_size_in_bytes : ℕ
  pub should_reject : List Bytes

-- The two limits of a proposal.
pub record Limits : Type 0 where
  pub max_microblocks_per_block : ℕ
  pub max_block_size : ℕ

-- `txs.reduce((acc, tx) => acc + tx.length, 0)`
unfoldable pub total_size : List Bytes → ℕ
total_size [] = 0
total_size (tx ∷ txs) = length tx + total_size txs

-- `markMicroblockAsRejected`, `shouldBeRejected` and `clearRejectedMicroblocks`, by hashes
abbrev pub mark_microblock_as_rejected : Bytes → List Bytes → List Bytes
mark_microblock_as_rejected hash should_reject = add hash should_reject

abbrev pub should_be_rejected : Bytes → List Bytes → Bool
should_be_rejected hash should_reject = has hash should_reject

abbrev pub clear_rejected_microblocks : List Bytes → List Bytes
clear_rejected_microblocks should_reject = []

-- `microblocks.sort((a, b) => b.feesInAtomics - a.feesInAtomics)`, which is stable.
unfoldable pub insert_by_fees : {M : Type 0} → Entry M → List (Entry M) → List (Entry M)
insert_by_fees e [] = e ∷ []
insert_by_fees e (f ∷ entries) =
    let rest = insert_by_fees e entries in
    if leb f.fees_in_atomics e.fees_in_atomics then e ∷ f ∷ entries else f ∷ rest

unfoldable pub sort_by_fees : {M : Type 0} → List (Entry M) → List (Entry M)
unfolding insert_by_fees
sort_by_fees [] = []
sort_by_fees (e ∷ entries) = insert_by_fees e (sort_by_fees entries)

abbrev pub accept : Bytes → Proposal → Proposal
accept tx p = record p {
  proposed_txs = p.proposed_txs ++ (tx ∷ []);
  current_block_size_in_bytes = p.current_block_size_in_bytes + length tx;
}

module _ {S M : Type 0} (hash_of : M → Bytes) (step : M → Bytes → Action S (Unit {0})) where
  -- The loop of `PrepareProposal`: a microblock that is refused may have changed the state.
  unfoldable pub propose : Limits → List (Entry M) → Proposal → S → Proposal × S
  propose limits [] p s = (p, s)
  propose limits (e ∷ entries) p s =
      if leb limits.max_microblocks_per_block (length p.proposed_txs)
      then (p, s)
      else if ltb limits.max_block_size (p.current_block_size_in_bytes + length e.tx)
      then (p, s)
      else elim (step e.microblock e.tx s) [
        | done u s' ↦ propose limits entries (accept e.tx p) s'
        | failed s' ↦
            propose limits entries
              (record p {
                should_reject = mark_microblock_as_rejected (hash_of e.microblock) p.should_reject;
              })
              s'
      ]

module _ {S : Type 0} (run : Bytes → Action S (Unit {0})) where
  -- The loop of `ProcessProposal`: whether the status is `ACCEPT`.
  unfoldable pub process : List Bytes → S → Bool × S
  process [] s = (true, s)
  process (tx ∷ txs) s = elim (run tx s) [ done u s' ↦ process txs s' | failed s' ↦ (false, s') ]

  -- The loop of `FinalizeBlock`: the codes of the results.
  unfoldable pub finalize : List Bytes → S → List ℕ × S
  finalize [] s = ([], s)
  finalize (tx ∷ txs) s = elim (run tx s) [
    | done u s' ↦ let rest = finalize txs s' in (0 ∷ rest.0, rest.1)
    | failed s' ↦ let rest = finalize txs s' in (1 ∷ rest.0, rest.1)
  ]
