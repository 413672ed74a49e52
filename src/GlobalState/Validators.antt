-- ===== src/GlobalState/Validators.antt =====
-- The powers of the validators (`buildValidatorSetUpdate` of GlobalStateUpdater.ts).
use carmentis_node.Base.{
  ◌∷◌, ℕ, ◌/◌, Bool, ◌&&◌, true, false, not, Option, none, some, List, [], ◌++◌, Bytes, bytes_eq,
  ◌==◌, if◌then◌else◌, Result, ok, thrown,
}
use carmentis_node.Base.Effects.{Action, pure, throw_when, lift, modify, ◌>>=◌, ◌>>◌, read}
use carmentis_node.Database.Stores.{Table, Database}
use carmentis_node.Accounts.Sdk.{Radix}
use carmentis_node.Accounts.State.{load_account_information, holding_of}
use carmentis_node.GlobalState.Types.{
  ValidatorSet, CometValidatorSetUpdate, ValidatorNode, Node, NodeSdk,
}
use carmentis_node.GlobalState.State.{get_validator_set, put_validator_set}

-- `ABCI_TO_COMET_KEY_TYPE_MAPPING`: "tendermint/PubKeyEd25519" is "ed25519".
abbrev abci_key_type : Bytes
abci_key_type =
    116 ∷ 101 ∷ 110 ∷ 100 ∷ 101 ∷ 114 ∷ 109 ∷ 105 ∷ 110 ∷ 116 ∷ 47 ∷ 80 ∷ 117 ∷ 98 ∷ 75 ∷ 101 ∷ 121
    ∷ 69 ∷ 100 ∷ 50 ∷ 53 ∷ 53 ∷ 49 ∷ 57 ∷ []

abbrev comet_key_type : Bytes
comet_key_type = 101 ∷ 100 ∷ 50 ∷ 53 ∷ 53 ∷ 49 ∷ 57 ∷ []

unfoldable pub abci_to_comet_key_type_mapping : Bytes → Option Bytes
abci_to_comet_key_type_mapping key_type =
    if bytes_eq key_type abci_key_type then some comet_key_type else none

-- `validatorSetsHaveSameKey`
abbrev pub validator_sets_have_same_key : ValidatorSet → ValidatorSet → Bool
validator_sets_have_same_key comet_record abci_record =
    bytes_eq comet_record.public_key_type abci_record.public_key_type
    && bytes_eq comet_record.public_key_bytes abci_record.public_key_bytes

-- `abciList.find(…)` of a record of the other side, and `cometList.find(…)`
unfoldable pub is_referenced : ValidatorSet → List ValidatorSet → Bool
is_referenced comet_record [] = false
is_referenced comet_record (abci_record ∷ records) =
    if validator_sets_have_same_key comet_record abci_record
    then true
    else is_referenced comet_record records

unfoldable pub all_referenced : List ValidatorSet → List ValidatorSet → Bool
unfolding is_referenced
all_referenced [] abci_list = true
all_referenced (comet_record ∷ records) abci_list =
    is_referenced comet_record abci_list && all_referenced records abci_list

-- `cometRecord?.votingPower ?? 0`
unfoldable pub comet_voting_power : ValidatorSet → List ValidatorSet → ℕ
comet_voting_power abci_record [] = 0
comet_voting_power abci_record (comet_record ∷ records) =
    if validator_sets_have_same_key comet_record abci_record
    then comet_record.voting_power
    else comet_voting_power abci_record records

abbrev pub update_entry : ValidatorSet → CometValidatorSetUpdate
update_entry r = record {
  power = r.voting_power;
  pub_key_type = abci_to_comet_key_type_mapping r.public_key_type;
  pub_key_bytes = r.public_key_bytes;
}

module _ (db : Database) (sdk : NodeSdk db) (radix : Radix db) where
  -- The records of the table, by its keys.
  unfoldable pub comet_records : db.Store → List Bytes → Result (List ValidatorSet)
  comet_records s [] = ok []
  comet_records s (key ∷ keys) =
      let rest = comet_records s keys in
      elim (get_validator_set db sdk s key) [
        | none ↦ thrown
        | some r ↦ elim rest [ thrown ↦ thrown | ok records ↦ ok (r ∷ records) ]
      ]

  -- `getValidatorNodeStakingAmount`
  unfoldable pub get_validator_node_staking_amount : ValidatorNode → Action (Node db) ℕ
  get_validator_node_staking_amount node = do
    account_id ← lift node.organization_account
    information ← read (λ n. load_account_information sdk.accounts db radix n.world account_id)
    pure (
        sdk.accounts.get_node_staking_lock_amount
          (holding_of sdk.accounts db radix information.state) node.id)

  -- The record of a node: its key and its voting power.
  unfoldable pub abci_record : Bytes → Action (Node db) ValidatorSet
  abci_record key = do
    loaded ← read (λ n. sdk.load_validator_node n key)
    node ← lift loaded
    staking_amount ← get_validator_node_staking_amount node
    declaration ← lift node.public_key_declaration
    pure (record {
      validator_node_hash = key;
      public_key_type = declaration.0;
      public_key_bytes = declaration.1;
      voting_power = if node.approved then staking_amount / sdk.atomics_per_token else 0;
    })

  unfoldable pub abci_records : List Bytes → Action (Node db) (List ValidatorSet)
  abci_records [] = pure []
  abci_records (key ∷ keys) = do
    r ← abci_record key
    records ← abci_records keys
    pure (r ∷ records)

  -- `this.validatorSetUpdates.push(…)`
  abbrev pub push_update : CometValidatorSetUpdate → Action (Node db) (Unit {0})
  push_update entry = modify (λ n. record n {
    updater = record n.updater {
      validator_set_updates = n.updater.validator_set_updates ++ (entry ∷ []);
    };
  })

  -- The last loop of `buildValidatorSetUpdate`: a power that is another on the side of Comet.
  unfoldable pub set_power : List ValidatorSet → ValidatorSet → Action (Node db) (Unit {0})
  unfolding comet_voting_power
  set_power comet_list r =
      if comet_voting_power r comet_list == r.voting_power then pure tt else (do
        put_validator_set db sdk (sdk.comet_address r.public_key_bytes) r
        push_update (update_entry r))

  unfoldable pub set_powers : List ValidatorSet → List ValidatorSet → Action (Node db) (Unit {0})
  set_powers comet_list [] = pure tt
  set_powers comet_list (r ∷ records) = do set_power comet_list r; set_powers comet_list records

  -- `buildValidatorSetUpdate`
  unfoldable pub build_validator_set_update : Action (Node db) (Unit {0})
  build_validator_set_update = do
    comet ← read (λ n. comet_records n.world.store (sdk.get_keys n.world.store Table.validator_set))
    comet_list ← lift comet
    keys ← read (λ n. sdk.get_keys n.world.store Table.validator_index)
    abci_list ← abci_records keys
    throw_when (not (all_referenced comet_list abci_list))
    set_powers comet_list abci_list
