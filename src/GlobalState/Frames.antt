-- ===== src/GlobalState/Frames.antt =====
-- What the storing of a microblock leaves alone (GlobalState.ts).
use carmentis_node.Base.{
  ℕ, ◌-◌, ◌≡◌, refl, ap, ◌∙◌, false, inl, inr, [], Bytes, ◌==◌, arith, Bool-cases, Result-cases,
}
use mathlib.Core.Path.{subst}
use carmentis_node.Base.Effects.{Outcome-cases, done, state_of, bind-eq-done}
use carmentis_node.Database.Stores.{Table, table_id, Database}
use carmentis_node.Accounts.Sdk.{Radix}
use carmentis_node.Merkle.{add_tree_leaf}
use carmentis_node.Merkle.Tables.{table_nodes}
use carmentis_node.Merkle.Frames.{add_tree_leaf-frame}
use carmentis_node.RadixTree.Write.{set_pair}
use carmentis_node.RadixTree.Confined.{set_pair-IsConfined}
use carmentis_node.Storage.Cached.{add_microblock_to_buffer}
use carmentis_node.GlobalState.Types.{Microblock, VirtualBlockchain, Node, NodeSdk}
use carmentis_node.GlobalState.State.{
  with_store, cached_storage, with_storage, genesis_seed_of, store_microblock_hash_in_merkle_tree,
  store_virtual_blockchain_state, store_microblock,
}
use carmentis_node.GlobalState.Microblocks.{store_all}

module _ (db : Database) (sdk : NodeSdk db) (radix : Radix db) where
  -- The entries of the table of the account states are those of another store.
  abbrev pub HasAccountsOf : db.Store → db.Store → Type 0
  HasAccountsOf s s' =
      (j : Bytes) → db.get_raw s' Table.account_state j ≡ db.get_raw s Table.account_state j

  pub put_raw-HasAccountsOf :
      (s : db.Store) (t : Table) (k v : Bytes)
      → (table_id t == table_id Table.account_state) ≡ false
      → HasAccountsOf s (db.put_raw s t k v)
  put_raw-HasAccountsOf s t k v other j =
      ground (arith, db.get-put s t Table.account_state k j v, other)

  store_microblock_hash-HasAccountsOf :
      (vb : VirtualBlockchain) (mb : Microblock) (n n' : Node db) (root : Bytes)
      → store_microblock_hash_in_merkle_tree db sdk vb mb n ≡ done root n'
      → HasAccountsOf n.world.store n'.world.store
  unfolding store_microblock_hash_in_merkle_tree table_id
  store_microblock_hash-HasAccountsOf vb mb n n' root e j =
      elim (Result-cases
        (add_tree_leaf sdk.hashes (table_nodes db) vb.id (mb.height - 1) mb.hash n.world.store)) [
          | inl h ↦ ground (arith, h, e)
          | inr ((top, s), h) ↦
              let kept =
                add_tree_leaf-frame sdk.hashes (table_nodes db) vb.id
                  (λ d. db.get_raw d Table.account_state j)
                  (λ d k v. put_raw-HasAccountsOf d Table.merkle_node k v refl j) (mb.height - 1)
                  mb.hash top n.world.store s h in
              let same : n' ≡ with_store n s = ground (arith, h, e) in
              ap (λ m. db.get_raw m.world.store Table.account_state j) same ∙ kept
        ]

  store_virtual_blockchain_state-HasAccountsOf :
      (vb : VirtualBlockchain) (root : Bytes) (n n' : Node db)
      → store_virtual_blockchain_state db sdk vb root n ≡ done tt n'
      → HasAccountsOf n.world.store n'.world.store
  unfolding store_virtual_blockchain_state table_id
  store_virtual_blockchain_state-HasAccountsOf vb root n n' e j =
      let serialized = vb.serialized_state root in
      let set =
        set_pair sdk.radix db Table.vb_radix vb.id (sdk.accounts.sha256 serialized) n.world.store in
      elim (Outcome-cases set) [
        | inr (s, h) ↦ ground (arith, h, e)
        | inl (u, s, h) ↦
            let kept : db.get_raw s Table.account_state j
                ≡ db.get_raw n.world.store Table.account_state j =
              subst
                (λ o.
                  db.get_raw (state_of o) Table.account_state j
                  ≡ db.get_raw n.world.store Table.account_state j)
                h
                (set_pair-IsConfined sdk.radix db Table.vb_radix vb.id
                  (sdk.accounts.sha256 serialized) n.world.store Table.account_state j refl) in
            let same : n'
                ≡ with_store n (db.put_raw s Table.virtual_blockchain_state vb.id serialized) =
              ground (arith, h, e) in
            ap (λ m. db.get_raw m.world.store Table.account_state j) same
            ∙ put_raw-HasAccountsOf s Table.virtual_blockchain_state vb.id serialized refl j
            ∙ kept
      ]

  add_microblock_to_buffer-HasAccountsOf :
      (day : ℕ) (hash transaction : Bytes) (n : Node db)
      → HasAccountsOf n.world.store
          (add_microblock_to_buffer sdk.storage db day hash transaction (cached_storage n)).store
  unfolding add_microblock_to_buffer table_id
  add_microblock_to_buffer-HasAccountsOf day hash transaction n j =
      put_raw-HasAccountsOf _ Table.data_file _ _ refl j
      ∙ put_raw-HasAccountsOf n.world.store Table.microblock_storage hash _ refl j

  store_microblock-HasAccountsOf :
      (day : ℕ) (vb : VirtualBlockchain) (mb : Microblock) (transaction : Bytes) (n n' : Node db)
      → store_microblock db sdk day vb mb transaction n ≡ done tt n'
      → HasAccountsOf n.world.store n'.world.store
  unfolding store_microblock table_id
  store_microblock-HasAccountsOf day vb mb transaction n n' e j =
      let buffer =
        add_microblock_to_buffer sdk.storage db day mb.hash transaction (cached_storage n) in
      let b = with_storage n buffer in
      let information = sdk.encode_microblock_information mb vb.id vb.kind in
      let s = db.put_raw buffer.store Table.microblock_vb_information mb.hash information in
      let kept =
        put_raw-HasAccountsOf buffer.store Table.microblock_vb_information mb.hash information refl
          j
        ∙ add_microblock_to_buffer-HasAccountsOf day mb.hash transaction n j in
      elim (Bool-cases (mb.height == 1)) [
        | inl first ↦
            let seed = genesis_seed_of db sdk mb in
            let same : n' ≡ with_store b (db.put_raw s Table.genesis_seed seed []) =
              ground (arith, first, e) in
            ap (λ m. db.get_raw m.world.store Table.account_state j) same
            ∙ put_raw-HasAccountsOf s Table.genesis_seed seed [] refl j
            ∙ kept
        | inr later ↦
            let same : n' ≡ with_store b s = ground (arith, later, e) in
            ap (λ m. db.get_raw m.world.store Table.account_state j) same ∙ kept
      ]

  -- The storing of a microblock leaves the states of the accounts as they were.
  pub store_all-HasAccountsOf :
      (vb : VirtualBlockchain) (mb : Microblock) (transaction : Bytes) (n n' : Node db)
      → store_all db sdk radix vb mb transaction n ≡ done tt n'
      → HasAccountsOf n.world.store n'.world.store
  unfolding store_all
  store_all-HasAccountsOf vb mb transaction n n' e j =
      let (root, n1, hashed, e1) =
        bind-eq-done (store_microblock_hash_in_merkle_tree db sdk vb mb n) _ e in
      let (u, n2, stored, e2) =
        bind-eq-done (store_virtual_blockchain_state db sdk vb root n1) _ e1 in
      store_microblock-HasAccountsOf vb.expiration_day vb mb transaction n2 n' e2 j
      ∙ store_virtual_blockchain_state-HasAccountsOf vb root n1 n2 stored j
      ∙ store_microblock_hash-HasAccountsOf vb mb n n1 root hashed j
