-- ===== src/GlobalState/Checks.antt =====
-- The checks of a microblock (`updateGlobalStateOnMicroblock` of GlobalStateUpdater.ts).
use carmentis_node.Base.{
  ℕ, ◌≡◌, refl, Bool, true, false, not, ◌⊎◌, inl, inr, some, Bytes, ltb, ◌==◌, arith, Bool-cases,
  Result, ok, thrown,
}
use carmentis_node.Base.Effects.{
  Action, Outcome, done, failed, bind, throw_when, lift, throw_when-eq_done, lift-eq_done,
}
use carmentis_node.Base.Ints.{pos, ltb_ℤ}
use carmentis_node.Database.Stores.{Database}
use carmentis_node.Accounts.Sdk.{Radix}
use carmentis_node.Accounts.Manager.{get_account_balance, is_account_defined}
use carmentis_node.GlobalState.Types.{Microblock, VirtualBlockchain, CometParameters, Node, NodeSdk}
use carmentis_node.GlobalState.State.{is_protocol_vb_defined}
use carmentis_node.GlobalState.Microblocks.{
  fees_to_pay, check_expiration, check_microblock, apply_microblock,
  update_global_state_on_microblock,
}
use carmentis_node.GlobalState.Writers.{
  has_section, is_protocol_creation, is_account_id_allowed_to_write,
}

-- A chain of checks that leaves the state as it was, whether it ends or throws.
abbrev pub IsCheck : {S : Type 0} → S → Outcome S (Unit {0}) → Type 0
IsCheck s o = (o ≡ done tt s) ⊎ (o ≡ failed s)

throw_when-IsCheck :
    {S : Type 0} (c : Bool) (s : S) (next : Unit {0} → Action S (Unit {0}))
    → IsCheck s (next tt s)
    → IsCheck s (bind (throw_when c s) next)
throw_when-IsCheck true s next h = inr refl
throw_when-IsCheck false s next h = h

last-IsCheck : {S : Type 0} (c : Bool) (s : S) → IsCheck s (throw_when c s)
last-IsCheck true s = inr refl
last-IsCheck false s = inl refl

lift-IsCheck :
    {S A : Type 0} (r : Result A) (s : S) (next : A → Action S (Unit {0}))
    → ((a : A) → IsCheck s (next a s))
    → IsCheck s (bind (lift r s) next)
lift-IsCheck thrown s next h = inr refl
lift-IsCheck (ok a) s next h = h a

bind-IsCheck :
    {S : Type 0} (o : Outcome S (Unit {0})) (s : S) (next : Unit {0} → Action S (Unit {0}))
    → IsCheck s o
    → IsCheck s (next tt s)
    → IsCheck s (bind o next)
bind-IsCheck o s next (inl e) h = rw e h
bind-IsCheck o s next (inr e) h = rw e (inr refl)

-- Inversion of a chain of which the first part is such checks.
IsCheck-eq_done :
    {S : Type 0} (o : Outcome S (Unit {0})) (s : S) (next : Unit {0} → Action S (Unit {0})) {s' : S}
    → IsCheck s o
    → bind o next ≡ done tt s'
    → (o ≡ done tt s) × (next tt s ≡ done tt s')
IsCheck-eq_done o s next (inl e) h = (e, rw e at h)
IsCheck-eq_done o s next (inr e) h = ground (arith, e, h)

module _ (db : Database) (sdk : NodeSdk db) (radix : Radix db) where
  check_expiration-IsCheck :
      (vb : VirtualBlockchain) (timestamp : ℕ) (n : Node db)
      → IsCheck n (check_expiration db sdk radix vb timestamp n)
  unfolding check_expiration
  check_expiration-IsCheck vb timestamp n = elim (Bool-cases (vb.expiration_day == 0)) [
    | inl c ↦ inl (ground (arith, c))
    | inr c ↦ rw c (
        throw_when-IsCheck (not (vb.kind == sdk.application_ledger_vb)) n _
          (last-IsCheck (ltb vb.expiration_day timestamp) n))
  ]

  -- The checks leave the state as it was.
  pub check_microblock-IsCheck :
      (payer : Bytes) (vb : VirtualBlockchain) (mb : Microblock) (p : CometParameters) (n : Node db)
      → IsCheck n (check_microblock db sdk radix payer vb mb p n)
  unfolding check_microblock
  check_microblock-IsCheck payer vb mb p n =
      let balance = get_account_balance sdk.accounts db radix n.world payer in
      throw_when-IsCheck (not (is_account_defined sdk.accounts db radix n.world payer)) n _ (
        throw_when-IsCheck (fees_to_pay mb == 0) n _ (
          bind-IsCheck (check_expiration db sdk radix vb p.block_timestamp n) n _
            (check_expiration-IsCheck vb p.block_timestamp n)
            (throw_when-IsCheck (not (ltb_ℤ (pos (fees_to_pay mb)) balance)) n _ (
              lift-IsCheck (sdk.load_account_public_key n payer) n _ (λ public_key.
                throw_when-IsCheck (not (sdk.verify mb public_key)) n _ (
                  lift-IsCheck (is_account_id_allowed_to_write db sdk radix n payer vb mb) n _
                    (λ allowed. last-IsCheck (not allowed) n)))))))

  -- What the checks have seen of a microblock that passes them.
  abbrev pub IsPayable : Bytes → VirtualBlockchain → Microblock → Node db → Type 0
  IsPayable payer vb mb n =
      (is_account_defined sdk.accounts db radix n.world payer ≡ true)
      × ((fees_to_pay mb == 0) ≡ false)
      × (ltb_ℤ (pos (fees_to_pay mb)) (get_account_balance sdk.accounts db radix n.world payer)
          ≡ true)
      × ((public_key : Bytes) × (sdk.load_account_public_key n payer ≡ ok public_key)
          × (sdk.verify mb public_key ≡ true))
      × (is_account_id_allowed_to_write db sdk radix n payer vb mb ≡ ok true)

  check_microblock-IsPayable :
      (payer : Bytes) (vb : VirtualBlockchain) (mb : Microblock) (p : CometParameters)
      (n n' : Node db)
      → check_microblock db sdk radix payer vb mb p n ≡ done tt n'
      → IsPayable payer vb mb n
  unfolding check_microblock
  check_microblock-IsPayable payer vb mb p n n' e =
      let defined = is_account_defined sdk.accounts db radix n.world payer in
      let balance = get_account_balance sdk.accounts db radix n.world payer in
      let (exists, e1) = throw_when-eq_done (not defined) {s = n} _ e in
      let (fees, e2) = throw_when-eq_done (fees_to_pay mb == 0) {s = n} _ e1 in
      let (unexpired, e3) =
        IsCheck-eq_done (check_expiration db sdk radix vb p.block_timestamp n) n _
          (check_expiration-IsCheck vb p.block_timestamp n) e2 in
      let (enough, e4) =
        throw_when-eq_done (not (ltb_ℤ (pos (fees_to_pay mb)) balance)) {s = n} _ e3 in
      let (public_key, loaded, e5) =
        lift-eq_done (sdk.load_account_public_key n payer) {s = n} _ e4 in
      let (signed, e6) = throw_when-eq_done (not (sdk.verify mb public_key)) {s = n} _ e5 in
      let (allowed, is_allowed, e7) =
        lift-eq_done (is_account_id_allowed_to_write db sdk radix n payer vb mb) {s = n} _ e6 in
      (
        ground (arith, exists),
        fees,
        ground (arith, enough),
        (public_key, loaded, ground (arith, signed)),
        ground (arith, is_allowed, e7),
      )

  -- A microblock that is not skipped has a payer that exists, that owns more than the fees, that
  -- has signed it and that may write; one that is refused by these checks changes nothing.
  pub update_global_state_on_microblock-cases :
      (payer : Bytes) (vb : VirtualBlockchain) (mb : Microblock) (p : CometParameters)
      (transaction : Bytes) (n : Node db)
      → mb.fees_payer_account ≡ some payer
      → has_section is_protocol_creation mb.sections ≡ false
      → (update_global_state_on_microblock db sdk radix vb mb p transaction n ≡ failed n)
        ⊎ (IsPayable payer vb mb n
            × (update_global_state_on_microblock db sdk radix vb mb p transaction n
                ≡ apply_microblock db sdk radix payer vb mb p transaction n))
  unfolding update_global_state_on_microblock
  update_global_state_on_microblock-cases payer vb mb p transaction n h other =
      elim (check_microblock-IsCheck payer vb mb p n) [
        | inl checked ↦ inr (
          check_microblock-IsPayable payer vb mb p n n checked,
          ground (arith, h, other, checked),
        )
        | inr refused ↦ inl (ground (arith, h, other, refused))
      ]

  -- A microblock that declares a protocol is skipped, whatever else it holds and whether or not a
  -- protocol is defined.
  pub update_global_state_on_microblock-protocol_creation :
      (vb : VirtualBlockchain) (mb : Microblock) (p : CometParameters) (transaction : Bytes)
      (n : Node db)
      → has_section is_protocol_creation mb.sections ≡ true
      → update_global_state_on_microblock db sdk radix vb mb p transaction n ≡ done tt n
  unfolding update_global_state_on_microblock is_protocol_vb_defined
  update_global_state_on_microblock-protocol_creation vb mb p transaction n h = ground (arith, h)
