-- ===== src/GlobalState/Powers.antt =====
-- The powers that the table of the validators has, after `buildValidatorSetUpdate` of
-- GlobalStateUpdater.ts.
use carmentis_node.Base.{
  ℕ, ◌≡◌, refl, sym, ap, ◌∙◌, false, inl, inr, Option, none, some, List, [], ◌∷◌, ◌++◌, Bytes,
  bytes_eq, ◌==◌, if◌then◌else◌, arith, Bool-cases, bytes_eq_iff,
}
use mathlib.Core.List.{append_assoc, append-nil}
use carmentis_node.Base.Effects.{done, bind-eq-done, done_injective}
use carmentis_node.Database.Stores.{Table, table_id, Database}
use carmentis_node.Accounts.Sdk.{Radix}
use carmentis_node.GlobalState.Types.{ValidatorSet, CometValidatorSetUpdate, Node, NodeSdk}
use carmentis_node.GlobalState.State.{get_validator_set, put_validator_set}
use carmentis_node.GlobalState.Validators.{comet_voting_power, update_entry, set_power, set_powers}

module _ (db : Database) (sdk : NodeSdk db) (radix : Radix db) where
  abbrev pub address_of : ValidatorSet → Bytes
  address_of r = sdk.comet_address r.public_key_bytes

  abbrev power_or_zero : Option ValidatorSet → ℕ
  power_or_zero none = 0
  power_or_zero (some r) = r.voting_power

  -- The power that the table has for the key of a record.
  abbrev pub power_in : db.Store → ValidatorSet → ℕ
  power_in s r = power_or_zero (get_validator_set db sdk s (address_of r))

  -- The keys of the records have addresses of their own.
  abbrev pub IsApart : Bytes → List ValidatorSet → Type 0
  IsApart address [] = Unit
  IsApart address (r ∷ records) =
      (bytes_eq (address_of r) address ≡ false) × IsApart address records

  abbrev pub AreApart : List ValidatorSet → Type 0
  AreApart [] = Unit
  AreApart (r ∷ records) = IsApart (address_of r) records × AreApart records

  -- The list of Comet's records has the powers of the table.
  abbrev pub IsRead : List ValidatorSet → db.Store → List ValidatorSet → Type 0
  IsRead comet_list s [] = Unit
  IsRead comet_list s (r ∷ records) =
      (comet_voting_power r comet_list ≡ power_in s r) × IsRead comet_list s records

  -- The table has the powers of the records.
  abbrev pub HasPowers : db.Store → List ValidatorSet → Type 0
  HasPowers s [] = Unit
  HasPowers s (r ∷ records) = (power_in s r ≡ r.voting_power) × HasPowers s records

  -- The records of which the power changes.
  unfoldable pub changed : List ValidatorSet → List ValidatorSet → List CometValidatorSetUpdate
  changed comet_list [] = []
  changed comet_list (r ∷ records) =
      let rest = changed comet_list records in
      if comet_voting_power r comet_list == r.voting_power then rest else update_entry r ∷ rest

  abbrev pub updates_of : Node db → List CometValidatorSetUpdate
  updates_of n = n.updater.validator_set_updates

  -- The store and the updates after one record.
  set_power-cases :
      (comet_list : List ValidatorSet) (r : ValidatorSet) (n n' : Node db)
      → set_power db sdk radix comet_list r n ≡ done tt n'
      → (address : Bytes) → (bytes_eq (address_of r) address ≡ false)
      → get_validator_set db sdk n'.world.store address
        ≡ get_validator_set db sdk n.world.store address
  unfolding set_power put_validator_set get_validator_set table_id
  set_power-cases comet_list r n n' e address other =
      let put =
        db.get-put n.world.store Table.validator_set Table.validator_set (address_of r) address
          (sdk.encode_validator_set r) in
      ground (arith, put, other, e)

  set_power-power :
      (comet_list : List ValidatorSet) (r : ValidatorSet) (n n' : Node db)
      → set_power db sdk radix comet_list r n ≡ done tt n'
      → comet_voting_power r comet_list ≡ power_in n.world.store r
      → power_in n'.world.store r ≡ r.voting_power
  unfolding set_power put_validator_set get_validator_set table_id
  set_power-power comet_list r n n' e same =
      let put =
        db.get-put n.world.store Table.validator_set Table.validator_set (address_of r)
          (address_of r) (sdk.encode_validator_set r) in
      let decoded = sdk.decode-encode_validator_set r in
      ground (arith, put, decoded, e, same, bytes_eq_iff (address_of r) (address_of r))

  set_power-updates :
      (comet_list : List ValidatorSet) (r : ValidatorSet) (records : List ValidatorSet)
      (n n' : Node db)
      → set_power db sdk radix comet_list r n ≡ done tt n'
      → updates_of n' ++ changed comet_list records
        ≡ updates_of n ++ changed comet_list (r ∷ records)
  unfolding set_power put_validator_set changed
  set_power-updates comet_list r records n n' e =
      elim (Bool-cases (comet_voting_power r comet_list == r.voting_power)) [
        | inl same ↦ ground (arith, same, e)
        | inr other ↦
            let appended =
              append_assoc (updates_of n) (update_entry r ∷ []) (changed comet_list records) in
            ground (arith, other, e, appended)
      ]

  -- The records after the first one keep what they had.
  IsRead-kept :
      (comet_list : List ValidatorSet) (records : List ValidatorSet) (address : Bytes)
      (s s' : db.Store)
      → ((other : Bytes)
          → bytes_eq address other ≡ false
          → get_validator_set db sdk s' other ≡ get_validator_set db sdk s other)
      → IsApart address records
      → IsRead comet_list s records
      → IsRead comet_list s' records
  IsRead-kept comet_list [] address s s' kept apart is_read = tt
  IsRead-kept comet_list (r ∷ records) address s s' kept (first, apart) (same, is_read) =
      let swapped : bytes_eq address (address_of r) ≡ false =
        ground (
          arith,
          first,
          bytes_eq_iff address (address_of r),
          bytes_eq_iff (address_of r) address,
        ) in
      (
        same ∙ ap power_or_zero (sym (kept (address_of r) swapped)),
        IsRead-kept comet_list records address s s' kept apart is_read,
      )

  set_powers-kept :
      (comet_list records : List ValidatorSet) (address : Bytes) (n n' : Node db)
      → IsApart address records
      → set_powers db sdk radix comet_list records n ≡ done tt n'
      → get_validator_set db sdk n'.world.store address
        ≡ get_validator_set db sdk n.world.store address
  unfolding set_powers
  set_powers-kept comet_list [] address n n' apart e =
      ap (λ m. get_validator_set db sdk m.world.store address) (sym (done_injective e).1)
  set_powers-kept comet_list (r ∷ records) address n n' (first, apart) e =
      let (u, m, set, rest) = bind-eq-done (set_power db sdk radix comet_list r n) _ e in
      set_powers-kept comet_list records address m n' apart rest
      ∙ set_power-cases comet_list r n m set address first

  -- After the loop the table has the powers of the records, and the updates are those of the
  -- records whose power has changed.
  pub set_powers-HasPowers :
      (comet_list records : List ValidatorSet) (n n' : Node db)
      → AreApart records
      → IsRead comet_list n.world.store records
      → set_powers db sdk radix comet_list records n ≡ done tt n'
      → HasPowers n'.world.store records
        × (updates_of n' ≡ updates_of n ++ changed comet_list records)
  unfolding set_powers changed
  set_powers-HasPowers comet_list [] n n' apart is_read e =
      (tt, ap updates_of (sym (done_injective e).1) ∙ sym (append-nil (updates_of n)))
  set_powers-HasPowers comet_list (r ∷ records) n n' (first, apart) (same, is_read) e =
      let (u, m, set, rest) = bind-eq-done (set_power db sdk radix comet_list r n) _ e in
      let kept = set_power-cases comet_list r n m set in
      let (powers, updates) =
        set_powers-HasPowers comet_list records m n' apart
          (IsRead-kept comet_list records (address_of r) n.world.store m.world.store kept first
            is_read)
          rest in
      (
        (
          ap power_or_zero (set_powers-kept comet_list records (address_of r) m n' first rest)
              ∙ set_power-power comet_list r n m set same,
          powers,
        ),
        updates ∙ set_power-updates comet_list r records n m set,
      )

  -- Where the powers of the table are already those of the records, the loop changes nothing.
  pub set_powers-stable :
      (comet_list records : List ValidatorSet) (n : Node db)
      → IsRead comet_list n.world.store records
      → HasPowers n.world.store records
      → set_powers db sdk radix comet_list records n ≡ done tt n
  unfolding set_powers set_power
  set_powers-stable comet_list [] n is_read powers = refl
  set_powers-stable comet_list (r ∷ records) n (same, is_read) (power, powers) =
      ground (arith, same, power, set_powers-stable comet_list records n is_read powers)
