-- ===== src/RadixTree/Confined.antt =====
-- The writes of a radix tree stay in its table (RadixTree.ts).
use carmentis_node.Base.{
  take, ==_iff, ℕ, zero, suc, ◌≡◌, refl, Bool, true, false, Option, none, some, List, Bytes, Result,
  ok, thrown, ◌==◌, if◌then◌else◌, inl, inr, arith,
}
use carmentis_node.Base.Effects.{Outcome-cases, state_of, Action, pure, lift, read, ◌>>=◌, ◌>>◌}
use carmentis_node.Database.Stores.{Table, table_id, Database}
use carmentis_node.RadixTree.Nodes.{RadixSdk, mask_of}
use carmentis_node.RadixTree.Write.{
  set_to_storage, remove_from_storage, Write, split_leaf, update_child, update_node, replace_node,
  node_bytes, write, set_pair,
}
use carmentis_node.RadixTree.Read.{get_from_storage, get_root_hash}

module _ (db : Database) (table : Table) where
  -- A call leaves the entries of every other table as they are, also where it throws.
  pub record IsConfined {A : Type 0} (action : Action db.Store A) : Type 0 where
    pub frame :
        (s : db.Store) (u : Table) (j : Bytes)
        → (table_id u == table_id table) ≡ false
        → db.get_raw (state_of (action s)) u j ≡ db.get_raw s u j

  pure-IsConfined : {A : Type 0} (a : A) → IsConfined (pure a)
  pure-IsConfined a = record { frame = λ s u j h. refl }

  lift-IsConfined : {A : Type 0} (r : Result A) → IsConfined (lift r)
  lift-IsConfined thrown = record { frame = λ s u j h. refl }
  lift-IsConfined (ok a) = record { frame = λ s u j h. refl }

  read-IsConfined : {A : Type 0} (f : db.Store → A) → IsConfined (read f)
  read-IsConfined f = record { frame = λ s u j h. refl }

  bind_frame :
      {A B : Type 0} (first : Action db.Store A) (next : A → Action db.Store B)
      → IsConfined first
      → ((a : A) → IsConfined (next a))
      → (s : db.Store) (u : Table) (j : Bytes) → (table_id u == table_id table) ≡ false
      → db.get_raw (state_of ((first >>= next) s)) u j ≡ db.get_raw s u j
  bind_frame first next h k s u j other = elim (Outcome-cases (first s)) [
    | inl (a, s', e) ↦ ground (arith, e, h.frame s u j other, (k a).frame s' u j other)
    | inr (s', e) ↦ ground (arith, e, h.frame s u j other)
  ]

  bind-IsConfined :
      {A B : Type 0} (first : Action db.Store A) (next : A → Action db.Store B)
      → IsConfined first
      → ((a : A) → IsConfined (next a))
      → IsConfined (first >>= next)
  bind-IsConfined first next h k = record { frame = bind_frame first next h k }

  -- A value is read by a function that may throw.
  read_or_throw-IsConfined :
      {A B : Type 0} (f : db.Store → Result A) (next : A → Action db.Store B)
      → ((a : A) → IsConfined (next a))
      → IsConfined (read f >>= λ found. lift found >>= next)
  read_or_throw-IsConfined f next k =
      bind-IsConfined _ _ (read-IsConfined f)
        (λ found. bind-IsConfined _ _ (lift-IsConfined found) k)

  if-IsConfined :
      {A : Type 0} (c : Bool) (a b : Action db.Store A)
      → IsConfined a
      → IsConfined b
      → IsConfined (if c then a else b)
  if-IsConfined true a b h k = h
  if-IsConfined false a b h k = k

module _ (sdk : RadixSdk) (db : Database) (table : Table) where
  set_to_storage-IsConfined :
      (hash value : Bytes) → IsConfined db table (set_to_storage sdk db table hash value)
  set_to_storage-IsConfined hash value = record {
    frame = λ s u j other. ground (
      arith,
      other,
      db.get-put s table u hash j value,
      ==_iff (table_id u) (table_id table),
      ==_iff (table_id table) (table_id u),
    );
  }

  remove_from_storage-IsConfined :
      (hash : Bytes) → IsConfined db table (remove_from_storage sdk db table hash)
  remove_from_storage-IsConfined hash = record {
    frame = λ s u j other. db.get-del s table u hash j (
        ground (
          arith,
          other,
          ==_iff (table_id u) (table_id table),
          ==_iff (table_id table) (table_id u),
        ));
  }

  -- What the recursive call keeps.
  abbrev KeepsTables : Write sdk db table → Type 0
  KeepsTables below = (k v : Bytes) (h : Option Bytes) → IsConfined db table (below k v h)

  split_leaf-IsConfined :
      (below : Write sdk db table) (depth : ℕ) (node : Bytes)
      → KeepsTables below
      → IsConfined db table (split_leaf sdk db table below depth node)
  unfolding split_leaf
  split_leaf-IsConfined below depth node keeps =
      bind-IsConfined db table _ _ (lift-IsConfined db table _)
        (λ k. bind-IsConfined db table _ _ (keeps _ _ _) (λ h. pure-IsConfined db table _))

  update_child-IsConfined :
      (below : Write sdk db table) (depth : ℕ) (key value : Bytes) (msk : ℕ)
      (hash_list : List (Option Bytes))
      → KeepsTables below
      → IsConfined db table (update_child sdk db table below depth key value msk hash_list)
  unfolding update_child
  update_child-IsConfined below depth key value msk hash_list keeps =
      bind-IsConfined db table _ _ (keeps _ _ _) (λ h. lift-IsConfined db table _)

  update_node-IsConfined :
      (below : Write sdk db table) (depth : ℕ) (key value node : Bytes)
      → KeepsTables below
      → IsConfined db table (update_node sdk db table below depth key value node)
  unfolding update_node
  update_node-IsConfined below depth key value node keeps =
      if-IsConfined db table (mask_of node == 0) _ _
        (if-IsConfined db table (sdk.key_difference depth key node) _ _
          (bind-IsConfined db table _ _ (split_leaf-IsConfined below depth node keeps)
            (λ m. update_child-IsConfined below depth key value m.0 m.1 keeps))
          (lift-IsConfined db table _))
        (update_child-IsConfined below depth key value (mask_of node) _ keeps)

  store_node-IsConfined :
      (node : Bytes)
      → IsConfined db table (
          set_to_storage sdk db table (take sdk.hash_size (sdk.sha256 node)) node
          >> pure (take sdk.hash_size (sdk.sha256 node)))
  store_node-IsConfined node =
      let hash = take sdk.hash_size (sdk.sha256 node) in
      bind-IsConfined db table _ _ (set_to_storage-IsConfined hash node)
        (λ u. pure-IsConfined db table hash)

  replace_node-IsConfined :
      (node_hash : Option Bytes) (node : Bytes)
      → IsConfined db table (replace_node sdk db table node_hash node)
  unfolding replace_node
  replace_node-IsConfined none node = store_node-IsConfined node
  replace_node-IsConfined (some node_hash) node =
      bind-IsConfined db table _ _ (remove_from_storage-IsConfined node_hash)
        (λ u. store_node-IsConfined node)

  node_bytes-IsConfined :
      (below : Write sdk db table) (depth : ℕ) (key value : Bytes) (node_hash : Option Bytes)
      → KeepsTables below
      → IsConfined db table (node_bytes sdk db table below depth key value node_hash)
  unfolding node_bytes
  node_bytes-IsConfined below depth key value none keeps = lift-IsConfined db table _
  node_bytes-IsConfined below depth key value (some hash) keeps =
      read_or_throw-IsConfined db table (λ s. get_from_storage sdk db table s hash) _
        (λ node. update_node-IsConfined below depth key value node keeps)

  write-IsConfined : (left : ℕ) → KeepsTables (write sdk db table left)
  unfolding write
  write-IsConfined zero k v h = pure-IsConfined db table v
  write-IsConfined (suc left) k v h =
      bind-IsConfined db table _ _ (node_bytes-IsConfined _ _ k v h (write-IsConfined left))
        (λ node. replace_node-IsConfined h node)

  -- Whether it ends or throws, a write of a pair leaves every entry of the other tables as it was.
  pub set_pair-IsConfined :
      (key value : Bytes) (s : db.Store) (u : Table) (j : Bytes)
      → (table_id u == table_id table) ≡ false
      → db.get_raw (state_of (set_pair sdk db table key value s)) u j ≡ db.get_raw s u j
  unfolding set_pair
  set_pair-IsConfined key value s =
      (read_or_throw-IsConfined db table (λ s. get_root_hash sdk db table s) _
          (λ root.
            bind-IsConfined db table _ _ (write-IsConfined _ key value (some root))
              (λ new_root. set_to_storage-IsConfined _ new_root))).frame
        s
