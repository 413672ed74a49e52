-- ===== src/GlobalState/Blocks.antt =====
-- The end of a block (`finalizeBlockApproval` and `dispatchFeesAmongValidators` of
-- GlobalStateUpdater.ts, `getApplicationStateHashes` and `clearCaches` of GlobalState.ts).
use carmentis_node.Base.{
  map, ℕ, ◌+◌, ◌-◌, Bool, Option, none, some, List, [], ◌∷◌, ◌++◌, Bytes, bytes_eq, length, get_or,
  ltb, ◌==◌, if◌then◌else◌, Result, ok, thrown,
}
use carmentis_node.Base.Effects.{Action, pure, lift, read, modify, ◌>>=◌, ◌>>◌}
use carmentis_node.Base.Ints.{ℤ, pos, pos_part, ltb_ℤ}
use carmentis_node.Database.Stores.{Table, Database}
use carmentis_node.Accounts.Sdk.{Radix}
use carmentis_node.Accounts.Transfer.{token_transfer}
use carmentis_node.Accounts.Manager.{get_account_balance, get_staked_amount}
use carmentis_node.Fees.{dispatch}
use carmentis_node.RadixTree.Read.{get_root_hash}
use carmentis_node.GlobalState.Types.{ApplicationStateHashes, Node, NodeSdk}
use carmentis_node.GlobalState.State.{
  on_world, get_chain_information, put_chain_information, get_block_information,
  put_block_information, put_block_content, put_block_modified_accounts, get_validator_set,
}
use carmentis_node.GlobalState.Sections.{transfer_of}

-- A vote of the last commit: whether it is for the block, and the address of its validator.
pub record Vote : Type 0 where
  pub is_commit : Bool
  pub validator : Option Bytes

-- `RequestFinalizeBlock`
pub record FinalizeRequest : Type 0 where
  pub height : ℕ
  pub time : ℕ
  pub hash : Bytes
  pub proposer_address : Bytes
  pub txs : List Bytes
  pub votes : List Vote

-- `objectCounts.map((count, ndx) => count + this.newObjectCounts[ndx])`
unfoldable pub add_counts : List ℕ → List ℕ → ℕ → List ℕ
add_counts [] new_counts ndx = []
add_counts (count ∷ counts) new_counts ndx =
    (count + get_or new_counts ndx 0) ∷ add_counts counts new_counts (ndx + 1)

module _ (db : Database) (sdk : NodeSdk db) (radix : Radix db) where
  -- The account of the node of a vote and its stake, or none where the vote is skipped.
  unfoldable pub paid_account : Vote → Action (Node db) (Option (Bytes × ℕ))
  paid_account vote = elim vote.validator [
    | none ↦ pure none
    | some address ↦ do
      found ← read (λ n. get_validator_set db sdk n.world.store address)
      elim found [
        | none ↦ pure none
        | some node_by_address ↦
            if bytes_eq node_by_address.validator_node_hash sdk.accounts.null_hash
            then pure none
            else (do
              loaded ← read (λ n. sdk.load_validator_node n node_by_address.validator_node_hash)
              node ← lift loaded
              account_id ← lift node.organization_account
              amount ← read (λ n. get_staked_amount sdk.accounts db radix n.world account_id)
              staked ← lift amount
              pure (some (account_id, staked)))
      ]
  ]

  abbrev add_paid : Option (Bytes × ℕ) → List (Bytes × ℕ) → List (Bytes × ℕ)
  add_paid none paid = paid
  add_paid (some account) paid = account ∷ paid

  -- The loop over the votes: `validatorAccounts` and `validatorStakes`.
  unfoldable pub paid_accounts : List Vote → Action (Node db) (List (Bytes × ℕ))
  unfolding paid_account
  paid_accounts [] = pure []
  paid_accounts (vote ∷ votes) = do
    account ← if vote.is_commit then paid_account vote else pure none
    accounts ← paid_accounts votes
    pure (add_paid account accounts)

  abbrev pub accounts_of : List (Bytes × ℕ) → List Bytes
  accounts_of [] = []
  accounts_of ((account, stake) ∷ accounts) = account ∷ accounts_of accounts

  abbrev pub stakes_of : List (Bytes × ℕ) → List ℕ
  stakes_of [] = []
  stakes_of ((account, stake) ∷ accounts) = stake ∷ stakes_of accounts

  -- The payment of one validator; fees are integers and not negative.
  unfoldable pub pay_validator : Bytes → ℕ → ℕ → ℕ → Action (Node db) (Unit {0})
  pay_validator account fees height time = on_world (
      token_transfer sdk.accounts db radix
        (transfer_of db sdk radix sdk.bk_paid_block_fees (some sdk.account_block_fees) account fees
          0)
        (record {
          chain_reference = sdk.accounts.block_reference (height - 1);
          timestamp = time;
          public_reference = [];
          private_reference = [];
        }))

  -- The loop over the payments; an amount below zero is skipped, and every amount is an integer.
  unfoldable pub pay_validators : List Bytes → List ℤ → ℕ → ℕ → Action (Node db) (Unit {0})
  pay_validators (account ∷ accounts) (fees ∷ shares) height time = do
    if ltb_ℤ fees (pos 0) then pure tt else pay_validator account (pos_part fees) height time
    pay_validators accounts shares height time
  pay_validators accounts shares height time = pure tt

  -- `dispatchFeesAmongValidators`; the balance of the fees is not negative
  unfoldable pub dispatch_fees_among_validators : FinalizeRequest → Action (Node db) (Unit {0})
  dispatch_fees_among_validators request = do
    balance ← read (λ n. get_account_balance sdk.accounts db radix n.world sdk.account_block_fees)
    let pending_fees = pos_part balance
    if pending_fees == 0 then pure tt else (do
      paid ← paid_accounts request.votes
      if length paid == 0
          then pure tt
          else pay_validators (accounts_of paid)
              (map pos (dispatch pending_fees (stakes_of paid) request.height)) request.height
              request.time)

  -- The hash of the radix trees of the last block that is committed.
  unfoldable pub last_radix_hash : db.Store → Result Bytes
  unfolding get_chain_information get_block_information
  last_radix_hash committed =
      let current_height = (get_chain_information db sdk committed).height in
      if ltb 0 current_height
      then elim (get_block_information db sdk committed current_height) [
        | none ↦ thrown
        | some last_block ↦ ok last_block.application_state_hashes.radix_hash
      ]
      else ok sdk.accounts.null_hash

  -- `getApplicationStateHashes`
  unfoldable pub get_application_state_hashes : Action (Node db) ApplicationStateHashes
  get_application_state_hashes = do
    last ← read (λ n. last_radix_hash n.committed)
    last_hash ← lift last
    token ← read (λ n. get_root_hash sdk.radix db Table.token_radix n.world.store)
    token_radix_hash ← lift token
    vb ← read (λ n. get_root_hash sdk.radix db Table.vb_radix n.world.store)
    vb_radix_hash ← lift vb
    challenge ← read (λ n. sdk.process_challenge n.disk n.committed last_hash)
    storage_hash ← lift challenge
    let radix_hash = sdk.accounts.sha256 (vb_radix_hash ++ token_radix_hash)
    pure (record {
      vb_radix_hash = vb_radix_hash;
      token_radix_hash = token_radix_hash;
      radix_hash = radix_hash;
      storage_hash = storage_hash;
      app_hash = sdk.accounts.sha256 (radix_hash ++ storage_hash);
    })

  -- The chain information after a block.
  unfoldable pub update_chain_information : ℕ → ℕ → Action (Node db) (Unit {0})
  update_chain_information height timestamp = do
    information ← read (λ n. get_chain_information db sdk n.world.store)
    updater ← read (λ n. n.updater)
    put_chain_information db sdk (record information {
      height = height;
      last_block_timestamp = timestamp;
      microblock_count =
          information.microblock_count + length updater.processed_and_accepted_microblocks;
      object_counts = add_counts information.object_counts updater.new_object_counts 0;
    })

  -- `finalizeBlockApproval`
  unfoldable pub finalize_block_approval : FinalizeRequest → Action (Node db) Bytes
  finalize_block_approval request = do
    dispatch_fees_among_validators request
    updater ← read (λ n. n.updater)
    put_block_content db sdk request.height updater.processed_and_accepted_microblocks
    modified_accounts ← read (λ n. n.world.modified)
    put_block_modified_accounts db sdk request.height modified_accounts
    update_chain_information request.height request.time
    hashes ← get_application_state_hashes
    put_block_information db sdk request.height (record {
      hash = request.hash;
      timestamp = request.time;
      proposer_address = request.proposer_address;
      application_state_hashes = hashes;
      size = updater.block_size_in_bytes;
      microblock_count = length request.txs;
    })
    pure hashes.app_hash

  -- `clearCaches`: what is read is what is committed.
  unfoldable pub clear_caches : Action (Node db) (Unit {0})
  clear_caches = modify (λ n. record n {
    world = record { store = n.committed; modified = [] };
    content_to_be_written = [];
    cached_microblocks = [];
  })
