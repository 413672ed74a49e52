-- ===== src/Abci/Bounds.antt =====
-- What the loop of `PrepareProposal` puts into a block: how much, and in which order.
use carmentis_node.Base.{
  length-append, ◌<◌, ℕ, ◌+◌, ◌≤◌, ◌<◌, ◌≡◌, sym, ◌∙◌, inl, inr, List, [], ◌∷◌, ◌++◌, Bytes, length,
  leb, arith, Bool-cases,
}
use mathlib.Core.Path.{subst}
use mathlib.Core.List.{append_assoc, append-nil}
use carmentis_node.Base.Effects.{Action}
use carmentis_node.Abci.Rounds.{refuse, propose-IsRound}
use carmentis_node.Abci.Runs.{
  Entry, Proposal, Limits, total_size, accept, propose, insert_by_fees, sort_by_fees,
}

total_size-append :
    (txs more : List Bytes) → total_size (txs ++ more) ≡ total_size txs + total_size more
unfolding total_size
total_size-append [] more = ground arith
total_size-append (tx ∷ txs) more = ground (arith, total_size-append txs more)

-- The size is counted, and the limits hold.
abbrev pub IsWithin : Limits → Proposal → Type 0
IsWithin limits p =
    (total_size p.proposed_txs ≡ p.current_block_size_in_bytes)
    × (p.current_block_size_in_bytes ≤ limits.max_block_size)
    × (length p.proposed_txs ≤ limits.max_microblocks_per_block)

-- The entries of the list, in its order, that were taken.
pub data IsTaken {M : Type 0} : List (Entry M) → List (Entry M) → Type 0 where
  none_taken : (entries : List (Entry M)) → IsTaken [] entries
  skip_entry :
      (e : Entry M) (taken entries : List (Entry M))
      → IsTaken taken entries
      → IsTaken taken (e ∷ entries)
  take_entry :
      (e : Entry M) (taken entries : List (Entry M))
      → IsTaken taken entries
      → IsTaken (e ∷ taken) (e ∷ entries)

abbrev pub txs_of : {M : Type 0} → List (Entry M) → List Bytes
txs_of [] = []
txs_of (e ∷ entries) = e.tx ∷ txs_of entries

-- No entry pays more than one that stands before it.
abbrev pub IsAtMost : {M : Type 0} → ℕ → List (Entry M) → Type 0
IsAtMost fees [] = Unit
IsAtMost fees (e ∷ entries) = (e.fees_in_atomics ≤ fees) × IsAtMost fees entries

abbrev pub IsDescending : {M : Type 0} → List (Entry M) → Type 0
IsDescending [] = Unit
IsDescending (e ∷ entries) = IsAtMost e.fees_in_atomics entries × IsDescending entries

accept-IsWithin :
    (limits : Limits) (tx : Bytes) (p : Proposal)
    → IsWithin limits p
    → length p.proposed_txs < limits.max_microblocks_per_block
    → p.current_block_size_in_bytes + length tx ≤ limits.max_block_size
    → IsWithin limits (accept tx p)
unfolding total_size
accept-IsWithin limits tx p (counted, size, count) room fits = (
  ground (arith, total_size-append p.proposed_txs (tx ∷ []), counted),
  fits,
  ground (arith, length-append p.proposed_txs (tx ∷ []), room),
)

module _ {S M : Type 0} (hash_of : M → Bytes) (step : M → Bytes → Action S (Unit {0})) where
  -- The proposal that is filled stays within the limits.
  pub propose-IsWithin :
      (limits : Limits) (entries : List (Entry M)) (p : Proposal) (s : S)
      → IsWithin limits p
      → IsWithin limits (propose hash_of step limits entries p s).0
  unfolding propose
  propose-IsWithin limits [] p s within = within
  propose-IsWithin limits (e ∷ entries) p s within =
      elim (propose-IsRound hash_of step limits e entries p s) [
        | inl ended ↦ subst (λ filled. IsWithin limits filled.0) (sym ended) within
        | inr (inl (s', ran, room, fits, rest)) ↦
            subst (λ filled. IsWithin limits filled.0) (sym rest)
              (propose-IsWithin limits entries (accept e.tx p) s'
                (accept-IsWithin limits e.tx p within room fits))
        | inr (inr (s', refused, rest)) ↦
            subst (λ filled. IsWithin limits filled.0) (sym rest)
              (propose-IsWithin limits entries (refuse (hash_of e.microblock) p) s' within)
      ]

  -- What is added to the proposal is taken from the entries, in their order.
  abbrev IsExtended : List (Entry M) → Proposal → Proposal × S → Type 0
  IsExtended entries p filled =
      (taken : List (Entry M)) × IsTaken taken entries
      × (filled.0.proposed_txs ≡ p.proposed_txs ++ txs_of taken)

  pub propose-IsTaken :
      (limits : Limits) (entries : List (Entry M)) (p : Proposal) (s : S)
      → IsExtended entries p (propose hash_of step limits entries p s)
  unfolding propose
  propose-IsTaken limits [] p s = ([], none_taken [], sym (append-nil p.proposed_txs))
  propose-IsTaken limits (e ∷ entries) p s =
      elim (propose-IsRound hash_of step limits e entries p s) [
        | inl ended ↦
            subst (IsExtended (e ∷ entries) p) (sym ended)
              ([], none_taken (e ∷ entries), sym (append-nil p.proposed_txs))
        | inr (inl (s', ran, room, fits, rest)) ↦
            let (taken, is_taken, more) = propose-IsTaken limits entries (accept e.tx p) s' in
            subst (IsExtended (e ∷ entries) p) (sym rest) (
              e ∷ taken,
              take_entry e taken entries is_taken,
              more ∙ append_assoc p.proposed_txs (e.tx ∷ []) (txs_of taken),
            )
        | inr (inr (s', refused, rest)) ↦
            let (taken, is_taken, more) =
              propose-IsTaken limits entries (refuse (hash_of e.microblock) p) s' in
            subst (IsExtended (e ∷ entries) p) (sym rest)
              (taken, skip_entry e taken entries is_taken, more)
      ]

-- The sorting puts the entries in order.
insert_by_fees-IsAtMost :
    {M : Type 0} (fees : ℕ) (e : Entry M) (entries : List (Entry M))
    → e.fees_in_atomics ≤ fees
    → IsAtMost fees entries
    → IsAtMost fees (insert_by_fees e entries)
unfolding insert_by_fees
insert_by_fees-IsAtMost fees e [] below rest = (below, tt)
insert_by_fees-IsAtMost fees e (f ∷ entries) below (first, rest) =
    elim (Bool-cases (leb f.fees_in_atomics e.fees_in_atomics)) [
      | inl c ↦ rw c (below, (first, rest))
      | inr c ↦ rw c (first, insert_by_fees-IsAtMost fees e entries below rest)
    ]

IsAtMost-weaken :
    {M : Type 0} (a b : ℕ) (entries : List (Entry M))
    → a ≤ b
    → IsAtMost a entries
    → IsAtMost b entries
IsAtMost-weaken a b [] h rest = tt
IsAtMost-weaken a b (e ∷ entries) h (first, rest) =
    (omega (arith, h, first), IsAtMost-weaken a b entries h rest)

insert_by_fees-IsDescending :
    {M : Type 0} (e : Entry M) (entries : List (Entry M))
    → IsDescending entries
    → IsDescending (insert_by_fees e entries)
unfolding insert_by_fees
insert_by_fees-IsDescending e [] descending = (tt, tt)
insert_by_fees-IsDescending e (f ∷ entries) (first, rest) =
    elim (Bool-cases (leb f.fees_in_atomics e.fees_in_atomics)) [
      | inl c ↦
          let below : f.fees_in_atomics ≤ e.fees_in_atomics = ground (arith, c) in
          rw c (
            (below, IsAtMost-weaken f.fees_in_atomics e.fees_in_atomics entries below first),
            (first, rest),
          )
      | inr c ↦ rw c (
        insert_by_fees-IsAtMost f.fees_in_atomics e entries (ground (arith, c)) first,
        insert_by_fees-IsDescending e entries rest,
      )
    ]

pub sort_by_fees-IsDescending :
    {M : Type 0} (entries : List (Entry M)) → IsDescending (sort_by_fees entries)
unfolding sort_by_fees
sort_by_fees-IsDescending [] = tt
sort_by_fees-IsDescending (e ∷ entries) =
    insert_by_fees-IsDescending e (sort_by_fees entries) (sort_by_fees-IsDescending entries)

-- What is taken in order is in order.
IsTaken-IsAtMost :
    {M : Type 0} (fees : ℕ) {taken entries : List (Entry M)}
    → IsTaken taken entries
    → IsAtMost fees entries
    → IsAtMost fees taken
IsTaken-IsAtMost fees (none_taken entries) at_most = tt
IsTaken-IsAtMost fees (skip_entry e taken entries t) (first, rest) = IsTaken-IsAtMost fees t rest
IsTaken-IsAtMost fees (take_entry e taken entries t) (first, rest) =
    (first, IsTaken-IsAtMost fees t rest)

pub IsTaken-IsDescending :
    {M : Type 0} {taken entries : List (Entry M)}
    → IsTaken taken entries
    → IsDescending entries
    → IsDescending taken
IsTaken-IsDescending (none_taken entries) descending = tt
IsTaken-IsDescending (skip_entry e taken entries t) (first, rest) = IsTaken-IsDescending t rest
IsTaken-IsDescending (take_entry e taken entries t) (first, rest) =
    (IsTaken-IsAtMost e.fees_in_atomics t first, IsTaken-IsDescending t rest)
