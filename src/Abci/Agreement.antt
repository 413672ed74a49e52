-- ===== src/Abci/Agreement.antt =====
-- The loops over the transactions of a block, compared with each other.
use carmentis_node.Base.{
  ap, false, ℕ, ◌≡◌, refl, sym, ◌∙◌, true, inl, inr, List, [], ◌∷◌, ◌++◌, Bytes, length, replicate,
  arith,
}
use mathlib.Core.List.{append_assoc, append-nil}
use carmentis_node.Base.Effects.{Action, Outcome-cases, done, failed, state_of}
use mathlib.Core.Path.{subst}
use carmentis_node.Abci.Rounds.{refuse, propose-IsRound}
use carmentis_node.Abci.Runs.{Entry, Proposal, Limits, accept, propose, process, finalize}

module _ {S M : Type 0} (step : M → Bytes → Action S (Unit {0})) where
  -- A microblock of the run that is refused leaves the state as it was.
  abbrev pub IsClean : List (Entry M) → S → Type 0
  IsClean [] s = Unit
  IsClean (e ∷ entries) s =
      ((s' : S) → step e.microblock e.tx s ≡ failed s' → s' ≡ s)
      × IsClean entries (state_of (step e.microblock e.tx s))

  -- The transactions are the microblocks of their entries, for another loop.
  abbrev pub AreDecoded : (Bytes → Action S (Unit {0})) → List (Entry M) → Type 0
  AreDecoded run [] = Unit
  AreDecoded run (e ∷ entries) =
      ((s : S) → run e.tx s ≡ step e.microblock e.tx s) × AreDecoded run entries

  module _ (hash_of : M → Bytes) (run : Bytes → Action S (Unit {0})) (limits : Limits) where
    -- What the proposal is filled with is accepted by the loop that checks it.
    abbrev IsAccepted : Proposal → S → Proposal × S → Type 0
    IsAccepted p s filled =
        (txs : List Bytes) × (filled.0.proposed_txs ≡ p.proposed_txs ++ txs)
        × (process run txs s ≡ (true, filled.1))

    nothing-IsAccepted : (p : Proposal) (s : S) → IsAccepted p s (p, s)
    unfolding process
    nothing-IsAccepted p s = ([], sym (append-nil p.proposed_txs), refl)

    accept-IsAccepted :
        (p : Proposal) (tx : Bytes) (s s' : S) (filled : Proposal × S)
        → run tx s ≡ done tt s'
        → IsAccepted (accept tx p) s' filled
        → IsAccepted p s filled
    unfolding process
    accept-IsAccepted p tx s s' filled ran (txs, more, accepted) =
        (tx ∷ txs, more ∙ append_assoc p.proposed_txs (tx ∷ []) txs, ground (arith, ran, accepted))

    pub propose-process :
        (entries : List (Entry M)) (p : Proposal) (s : S)
        → AreDecoded run entries
        → IsClean entries s
        → IsAccepted p s (propose hash_of step limits entries p s)
    unfolding propose
    propose-process [] p s decoded clean = nothing-IsAccepted p s
    propose-process (e ∷ entries) p s (decodes, decoded) (unchanged, clean) =
        elim (propose-IsRound hash_of step limits e entries p s) [
          | inl ended ↦ subst (IsAccepted p s) (sym ended) (nothing-IsAccepted p s)
          | inr (inl (s', ran, room, fits, rest)) ↦
              let next : IsClean entries s' = subst (λ o. IsClean entries (state_of o)) ran clean in
              subst (IsAccepted p s) (sym rest) (
                accept-IsAccepted p e.tx s s'
                  (propose hash_of step limits entries (accept e.tx p) s') (decodes s ∙ ran)
                  (propose-process entries (accept e.tx p) s' decoded next))
          | inr (inr (s', refused, rest)) ↦
              let next : IsClean entries s' =
                subst (λ o. IsClean entries (state_of o)) refused clean in
              let (txs, more, accepted) =
                propose-process entries (refuse (hash_of e.microblock) p) s' decoded next in
              subst (IsAccepted p s) (sym rest) (
                txs,
                more,
                subst
                    (λ z. process run txs z ≡ (
                      true,
                      (propose hash_of step limits entries (refuse (hash_of e.microblock) p) s').1,
                    ))
                    (unchanged s' refused) accepted,
              )
        ]

module _ {S : Type 0} (run : Bytes → Action S (Unit {0})) where
  -- The loop of `FinalizeBlock` gives one result for each transaction, and the code 0 to each
  -- where the loop of `ProcessProposal` accepts; both leave the same state.
  pub process-finalize :
      (txs : List Bytes) (s s' : S)
      → process run txs s ≡ (true, s')
      → finalize run txs s ≡ (replicate (length txs) 0, s')
  unfolding process finalize
  process-finalize [] s s' h = ground (arith, h)
  process-finalize (tx ∷ txs) s s' h = elim (Outcome-cases (run tx s)) [
    | inl (u, next, ran) ↦
        ground (arith, ran, process-finalize txs next s' (ground (arith, ran, h)))
    | inr (next, refused) ↦ ground (arith, refused, h)
  ]

  -- What the loop of `FinalizeBlock` gives where a transaction is refused: the ones before it have
  -- the code 0, and it has the code 1.
  abbrev pub IsRefused : List Bytes → List ℕ → Type 0
  IsRefused txs codes =
      (before after : List Bytes) × (tx : Bytes) × (rest : List ℕ) × (txs ≡ before ++ tx ∷ after)
      × (codes ≡ replicate (length before) 0 ++ 1 ∷ rest)

  cons-IsRefused :
      (tx : Bytes) (txs : List Bytes) (codes : List ℕ)
      → IsRefused txs codes
      → IsRefused (tx ∷ txs) (0 ∷ codes)
  cons-IsRefused tx txs codes (before, after, bad, rest, split, given) =
      (tx ∷ before, after, bad, rest, ap (λ l. tx ∷ l) split, ap (λ l. 0 ∷ l) given)

  finalize-done :
      (tx : Bytes) (txs : List Bytes) (s next : S)
      → run tx s ≡ done tt next
      → (finalize run (tx ∷ txs) s).0 ≡ 0 ∷ (finalize run txs next).0
  unfolding finalize
  finalize-done tx txs s next ran = ground (arith, ran)

  pub process-IsRefused :
      (txs : List Bytes) (s s' : S)
      → process run txs s ≡ (false, s')
      → IsRefused txs (finalize run txs s).0
  unfolding process finalize
  process-IsRefused [] s s' h = ground (arith, h)
  process-IsRefused (tx ∷ txs) s s' h = elim (Outcome-cases (run tx s)) [
    | inl (u, next, ran) ↦ subst (IsRefused (tx ∷ txs)) (sym (finalize-done tx txs s next ran)) (
        cons-IsRefused tx txs (finalize run txs next).0
          (process-IsRefused txs next s' (ground (arith, ran, h))))
    | inr (next, refused) ↦ ([], txs, tx, (finalize run txs next).0, refl, ground (arith, refused))
  ]
