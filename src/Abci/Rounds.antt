-- ===== src/Abci/Rounds.antt =====
-- One round of the loop of `PrepareProposal`.
use carmentis_node.Base.{
  ◌+◌, ◌≤◌, ◌<◌, ◌≡◌, ◌⊎◌, inl, inr, List, ◌∷◌, Bytes, length, ltb, leb, arith, Bool-cases,
}
use carmentis_node.Base.Effects.{Action, Outcome-cases, done, failed}
use carmentis_node.Abci.Runs.{Entry, Proposal, Limits, accept, mark_microblock_as_rejected, propose}

abbrev pub refuse : Bytes → Proposal → Proposal
refuse hash p = record p { should_reject = mark_microblock_as_rejected hash p.should_reject }

module _ {S M : Type 0} (hash_of : M → Bytes) (step : M → Bytes → Action S (Unit {0})) where
  -- The loop ends, or the microblock is accepted within the limits, or it is refused.
  abbrev pub IsRound : Limits → Entry M → List (Entry M) → Proposal → S → Type 0
  IsRound limits e entries p s =
      (propose hash_of step limits (e ∷ entries) p s ≡ (p, s))
      ⊎ ((s' : S) × (step e.microblock e.tx s ≡ done tt s')
          × (length p.proposed_txs < limits.max_microblocks_per_block)
          × (p.current_block_size_in_bytes + length e.tx ≤ limits.max_block_size)
          × (propose hash_of step limits (e ∷ entries) p s
              ≡ propose hash_of step limits entries (accept e.tx p) s'))
      ⊎ ((s' : S) × (step e.microblock e.tx s ≡ failed s')
          × (propose hash_of step limits (e ∷ entries) p s
              ≡ propose hash_of step limits entries (refuse (hash_of e.microblock) p) s'))

  pub propose-IsRound :
      (limits : Limits) (e : Entry M) (entries : List (Entry M)) (p : Proposal) (s : S)
      → IsRound limits e entries p s
  unfolding propose
  propose-IsRound limits e entries p s =
      elim (Bool-cases (leb limits.max_microblocks_per_block (length p.proposed_txs))) [
        | inl full ↦ inl (ground (arith, full))
        | inr room ↦
            elim (Bool-cases
              (ltb limits.max_block_size (p.current_block_size_in_bytes + length e.tx))) [
                | inl large ↦ inl (ground (arith, room, large))
                | inr fits ↦ elim (Outcome-cases (step e.microblock e.tx s)) [
                  | inl (u, s', ended) ↦ inr (
                      inl (
                        s',
                        ended,
                        ground (arith, room),
                        ground (arith, fits),
                        ground (arith, room, fits, ended),
                      ))
                  | inr (s', refused) ↦ inr (inr (s', refused, ground (arith, room, fits, refused)))
                ]
              ]
      ]
