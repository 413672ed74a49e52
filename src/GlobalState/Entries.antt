-- ===== src/GlobalState/Entries.antt =====
-- The entries that the end of a block stores (`finalizeBlockApproval` of GlobalStateUpdater.ts).
use carmentis_node.Base.{
  ℕ, ◌+◌, ◌≡◌, refl, sym, ap, ◌∙◌, false, some, Bytes, length, ◌==◌, arith, bytes_eq_iff,
}
use carmentis_node.Base.Effects.{lift-eq_done, done, bind-eq-done, done_injective}
use carmentis_node.Database.Stores.{Table, table_id, Database}
use carmentis_node.Accounts.Sdk.{Radix}
use carmentis_node.RadixTree.Read.{get_root_hash}
use carmentis_node.GlobalState.Types.{
  ChainInformation, BlockInformation, Updater, Node, NodeSdk, ApplicationStateHashes,
}
use carmentis_node.GlobalState.State.{with_store, get_chain_information, get_block_information}
use carmentis_node.GlobalState.Blocks.{
  last_radix_hash, FinalizeRequest, dispatch_fees_among_validators, get_application_state_hashes,
  update_chain_information, finalize_block_approval, add_counts,
}

module _ (db : Database) (sdk : NodeSdk db) (radix : Radix db) where
  -- A call that leaves the state as it was where it ends.
  hashes-kept :
      (n n' : Node db) (hashes : ApplicationStateHashes)
      → get_application_state_hashes db sdk radix n ≡ done hashes n'
      → n' ≡ n
  unfolding get_application_state_hashes
  hashes-kept n n' hashes e =
      let (a, h1, e1) = lift-eq_done (last_radix_hash db sdk radix n.committed) {s = n} _ e in
      let (b, h2, e2) =
        lift-eq_done (get_root_hash sdk.radix db Table.token_radix n.world.store) {s = n} _ e1 in
      let (c, h3, e3) =
        lift-eq_done (get_root_hash sdk.radix db Table.vb_radix n.world.store) {s = n} _ e2 in
      let (d, h4, e4) = lift-eq_done (sdk.process_challenge n.disk n.committed a) {s = n} _ e3 in
      sym (done_injective e4).1

  pub get_put_same :
      (s : db.Store) (t : Table) (k v : Bytes) → db.get_raw (db.put_raw s t k v) t k ≡ some v
  get_put_same s t k v = ground (arith, db.get-put s t t k k v, bytes_eq_iff k k)

  pub get_put_other :
      (s : db.Store) (t u : Table) (k j v : Bytes)
      → (table_id t == table_id u) ≡ false
      → db.get_raw (db.put_raw s t k v) u j ≡ db.get_raw s u j
  get_put_other s t u k j v other = ground (arith, db.get-put s t u k j v, other)

  get_block_information-found :
      (s : db.Store) (height : ℕ) (b : BlockInformation)
      → db.get_raw s Table.block_information (sdk.convert_height_to_table_key height)
        ≡ some (sdk.encode_block_information b)
      → get_block_information db sdk s height ≡ some b
  unfolding get_block_information
  get_block_information-found s height b e =
      rw (e, get_block_information) (ap some (sdk.decode-encode_block_information b))

  get_chain_information-found :
      (s : db.Store) (c : ChainInformation)
      → db.get_raw s Table.chain_information sdk.chain_information_key
        ≡ some (sdk.encode_chain_information c)
      → get_chain_information db sdk s ≡ c
  unfolding get_chain_information
  get_chain_information-found s c e =
      rw (e, get_chain_information) (sdk.decode-encode_chain_information c)

  -- The chain information and the block information that the end of a block stores.
  abbrev pub new_chain_information : FinalizeRequest → Updater → ChainInformation → ChainInformation
  new_chain_information request u information = record information {
    height = request.height;
    last_block_timestamp = request.time;
    microblock_count = information.microblock_count + length u.processed_and_accepted_microblocks;
    object_counts = add_counts information.object_counts u.new_object_counts 0;
  }

  abbrev pub new_block_information :
      FinalizeRequest → Updater → ApplicationStateHashes → BlockInformation
  new_block_information request u hashes = record {
    hash = request.hash;
    timestamp = request.time;
    proposer_address = request.proposer_address;
    application_state_hashes = hashes;
    size = u.block_size_in_bytes;
    microblock_count = length request.txs;
  }

  -- The store with the content of the block and the accounts that were modified.
  abbrev pub content_store : FinalizeRequest → Node db → db.Store
  content_store request paid =
      let key = sdk.convert_height_to_table_key request.height in
      db.put_raw
        (db.put_raw paid.world.store Table.block_content key
          (sdk.encode_block_content paid.updater.processed_and_accepted_microblocks))
        Table.block_modified_accounts key (sdk.encode_modified_accounts paid.world.modified)

  abbrev chain_store : FinalizeRequest → Node db → db.Store
  chain_store request paid =
      let before = content_store request paid in
      db.put_raw before Table.chain_information sdk.chain_information_key (
        sdk.encode_chain_information
          (new_chain_information request paid.updater (get_chain_information db sdk before)))

  abbrev pub ended_store : FinalizeRequest → Node db → ApplicationStateHashes → db.Store
  ended_store request paid hashes =
      db.put_raw (chain_store request paid) Table.block_information
        (sdk.convert_height_to_table_key request.height)
        (sdk.encode_block_information (new_block_information request paid.updater hashes))

  -- The store after the end of a block, from the one after the payment of the fees.
  pub finalize_block_approval-store :
      (request : FinalizeRequest) (n n' : Node db) (app_hash : Bytes)
      → finalize_block_approval db sdk radix request n ≡ done app_hash n'
      → (paid : Node db) × (hashes : ApplicationStateHashes) × (dispatch_fees_among_validators db
            sdk radix request n
          ≡ done tt paid)
        × (hashes.app_hash ≡ app_hash)
        × (n'.world.store ≡ ended_store request paid hashes)
        × (n'.world.modified ≡ paid.world.modified)
  unfolding finalize_block_approval update_chain_information
  finalize_block_approval-store request n n' app_hash e =
      let (u, paid, dispatched, e1) =
        bind-eq-done (dispatch_fees_among_validators db sdk radix request n) _ e in
      let chained = with_store paid (chain_store request paid) in
      let (hashes, m, computed, e2) =
        bind-eq-done (get_application_state_hashes db sdk radix chained) _ e1 in
      let same = hashes-kept chained m hashes computed in
      let (hash, ended) = done_injective e2 in
      (
        paid,
        hashes,
        dispatched,
        hash,
        ap (λ z. z.world.store) (sym ended)
            ∙ ap
                (λ z.
                  db.put_raw z.world.store Table.block_information
                    (sdk.convert_height_to_table_key request.height)
                    (sdk.encode_block_information
                      (new_block_information request paid.updater hashes)))
                same,
        ap (λ z. z.world.modified) (sym ended) ∙ ap (λ z. z.world.modified) same,
      )

  -- What is found in the store after the end of a block.
  pub ended_store-entries :
      (request : FinalizeRequest) (paid : Node db) (hashes : ApplicationStateHashes)
      → (get_block_information db sdk (ended_store request paid hashes) request.height
          ≡ some (new_block_information request paid.updater hashes))
        × (get_chain_information db sdk (ended_store request paid hashes)
            ≡ new_chain_information request paid.updater
                (get_chain_information db sdk (content_store request paid)))
        × (db.get_raw
              (ended_store request paid hashes)
              Table.block_content
              (sdk.convert_height_to_table_key request.height)
            ≡ some (sdk.encode_block_content paid.updater.processed_and_accepted_microblocks))
        × (db.get_raw
              (ended_store request paid hashes)
              Table.block_modified_accounts
              (sdk.convert_height_to_table_key request.height)
            ≡ some (sdk.encode_modified_accounts paid.world.modified))
  unfolding table_id
  ended_store-entries request paid hashes =
      let key = sdk.convert_height_to_table_key request.height in
      let block = new_block_information request paid.updater hashes in
      let before = content_store request paid in
      let chain =
        new_chain_information request paid.updater (get_chain_information db sdk before) in
      let u = paid.updater in
      let content = sdk.encode_block_content u.processed_and_accepted_microblocks in
      let modified = sdk.encode_modified_accounts paid.world.modified in
      let first = db.put_raw paid.world.store Table.block_content key content in
      let found_block =
        get_put_same (chain_store request paid) Table.block_information key
          (sdk.encode_block_information block) in
      let found_chain =
        get_put_other (chain_store request paid) Table.block_information Table.chain_information key
          sdk.chain_information_key (sdk.encode_block_information block) refl
        ∙ get_put_same before Table.chain_information sdk.chain_information_key
            (sdk.encode_chain_information chain) in
      let found_content =
        get_put_other (chain_store request paid) Table.block_information Table.block_content key key
          (sdk.encode_block_information block) refl
        ∙ get_put_other before Table.chain_information Table.block_content sdk.chain_information_key
            key (sdk.encode_chain_information chain) refl
        ∙ get_put_other first Table.block_modified_accounts Table.block_content key key modified
            refl
        ∙ get_put_same paid.world.store Table.block_content key content in
      let found_accounts =
        get_put_other (chain_store request paid) Table.block_information
          Table.block_modified_accounts key key (sdk.encode_block_information block) refl
        ∙ get_put_other before Table.chain_information Table.block_modified_accounts
            sdk.chain_information_key key (sdk.encode_chain_information chain) refl
        ∙ get_put_same first Table.block_modified_accounts key modified in
      (
        get_block_information-found (ended_store request paid hashes) request.height block
            found_block,
        get_chain_information-found (ended_store request paid hashes) chain found_chain,
        found_content,
        found_accounts,
      )
