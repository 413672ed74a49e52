-- ===== src/GlobalState/Ends.antt =====
-- What a block leaves behind (`finalizeBlockApproval` of GlobalStateUpdater.ts).
use carmentis_node.Base.{is_some, ◌≡◌, refl, sym, ap, ◌∙◌, some, Bytes, length}
use carmentis_node.Base.Effects.{done, failed}
use carmentis_node.Database.Stores.{Table, Database}
use carmentis_node.Accounts.Sdk.{Radix}
use carmentis_node.GlobalState.Types.{ApplicationStateHashes, CometParameters, Node, NodeSdk}
use carmentis_node.GlobalState.State.{
  get_chain_information, get_block_information, has_block_content,
}
use carmentis_node.GlobalState.Days.{update_global_state_on_block}
use carmentis_node.GlobalState.Blocks.{FinalizeRequest, finalize_block_approval}
use carmentis_node.GlobalState.Entries.{
  finalize_block_approval-store, ended_store-entries, new_block_information,
}
use carmentis_node.GlobalState.Payouts.{dispatch-updater}

module _ (db : Database) (sdk : NodeSdk db) (radix : Radix db) where
  -- The end of a block, where it does not throw, stores the microblocks accepted in the block as its
  -- content, the accounts that were modified, the information of the block with the hash that is
  -- answered, and its height and its time as those of the chain.
  pub finalize_block_approval-stored :
      (request : FinalizeRequest) (n n' : Node db) (app_hash : Bytes)
      → finalize_block_approval db sdk radix request n ≡ done app_hash n'
      → (hashes : ApplicationStateHashes) × (hashes.app_hash ≡ app_hash)
        × (get_block_information db sdk n'.world.store request.height
            ≡ some (record {
              hash = request.hash;
              timestamp = request.time;
              proposer_address = request.proposer_address;
              application_state_hashes = hashes;
              size = n.updater.block_size_in_bytes;
              microblock_count = length request.txs;
            }))
        × ((get_chain_information db sdk n'.world.store).height ≡ request.height)
        × ((get_chain_information db sdk n'.world.store).last_block_timestamp ≡ request.time)
        × (db.get_raw n'.world.store Table.block_content
              (sdk.convert_height_to_table_key request.height)
            ≡ some (sdk.encode_block_content n.updater.processed_and_accepted_microblocks))
        × (db.get_raw n'.world.store Table.block_modified_accounts
              (sdk.convert_height_to_table_key request.height)
            ≡ some (sdk.encode_modified_accounts n'.world.modified))
  finalize_block_approval-stored request n n' app_hash e =
      let (paid, hashes, dispatched, hash, stored, modified) =
        finalize_block_approval-store db sdk radix request n n' app_hash e in
      let (information, chain, content, accounts) =
        ended_store-entries db sdk radix request paid hashes in
      let same = dispatch-updater db sdk radix request n paid dispatched in
      (
        hashes,
        hash,
        ap (λ s. get_block_information db sdk s request.height) stored
            ∙ information
            ∙ ap (λ u. some (new_block_information db sdk radix request u hashes)) same,
        ap (λ s. (get_chain_information db sdk s).height) stored ∙ ap (λ c. c.height) chain,
        ap (λ s. (get_chain_information db sdk s).last_block_timestamp) stored
            ∙ ap (λ c. c.last_block_timestamp) chain,
        ap (λ s. db.get_raw s Table.block_content (sdk.convert_height_to_table_key request.height))
              stored
            ∙ content
            ∙ ap (λ u. some (sdk.encode_block_content u.processed_and_accepted_microblocks)) same,
        ap
              (λ s.
                db.get_raw s Table.block_modified_accounts
                  (sdk.convert_height_to_table_key request.height))
              stored
            ∙ accounts
            ∙ ap (λ m. some (sdk.encode_modified_accounts m)) (sym modified),
      )

  -- A block is not begun twice: once its end is stored, another block of the same height is refused
  -- and changes nothing.
  pub finalize_block_approval-duplicate :
      (request : FinalizeRequest) (p : CometParameters) (n n' : Node db) (app_hash : Bytes)
      → finalize_block_approval db sdk radix request n ≡ done app_hash n'
      → p.block_height ≡ request.height
      → update_global_state_on_block db sdk radix p n' ≡ failed n'
  unfolding update_global_state_on_block
  finalize_block_approval-duplicate request p n n' app_hash e h =
      let (hashes, hash, information, height, time, content, accounts) =
        finalize_block_approval-stored request n n' app_hash e in
      let exists = ap (λ k. has_block_content db sdk n'.world.store k) h ∙ ap is_some content in
      rw exists refl
