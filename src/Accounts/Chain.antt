-- ===== src/Accounts/Chain.antt =====
-- The chain of the entries of an account's history (AccountHistoryHandler.ts).
use carmentis_node.Base.{
  ap, inr, inl, Bool-cases, Option-cases, ℕ, zero, suc, ◌+◌, ◌≡◌, refl, false, Option, none, some,
  List, ◌∷◌, Bytes, bytes_eq, if◌then◌else◌, arith, bytes_eq_iff, ok, ◌>>=◌, >>=-eq-ok,
}
use carmentis_node.Base.Effects.{done, bind-eq-done}
use carmentis_node.Database.Stores.{Table, table_id, Database}
use carmentis_node.Accounts.Sdk.{Sdk, HistoryEntry, Radix}
use carmentis_node.Accounts.State.{World, load_account_information, holding_of}
use carmentis_node.Accounts.History.{
  add_history_entry, new_entry, entry_hash, load_history, load_history_entry,
}
use carmentis_node.Accounts.Transfer.{Context, add_tokens, update}
use carmentis_node.Accounts.Frames.{
  state_of_account, save_account_state-entries, save_account_state-state_of,
}
use carmentis_node.Accounts.Balances.{add_tokens-IsAdded}

module _ (sdk : Sdk) (db : Database) (radix : Radix db) where
  -- Every entry of the history of a world is in another, too.
  abbrev pub KeepsHistory : World db → World db → Type 0
  KeepsHistory w w' =
      (k v : Bytes)
      → db.get_raw w.store Table.account_history k ≡ some v
      → db.get_raw w'.store Table.account_history k ≡ some v

  load_history_entry-KeepsHistory :
      (w w' : World db)
      → KeepsHistory w w'
      → (k : Bytes) (e : HistoryEntry sdk.ChainReference)
      → load_history_entry sdk db radix w k ≡ ok e
      → load_history_entry sdk db radix w' k ≡ ok e
  unfolding load_history_entry
  load_history_entry-KeepsHistory w w' keeps k e h =
      elim (Option-cases (db.get_raw w.store Table.account_history k)) [
        | inl absent ↦ ground (arith, h, absent)
        | inr (v, found) ↦ ground (arith, h, found, keeps k v found)
      ]

  -- What could be loaded is loaded again.
  pub load_history-KeepsHistory :
      (w w' : World db)
      → KeepsHistory w w'
      → (n : ℕ) (k : Bytes) (entries : List (HistoryEntry sdk.ChainReference))
      → load_history sdk db radix w k n ≡ ok entries
      → load_history sdk db radix w' k n ≡ ok entries
  unfolding load_history
  load_history-KeepsHistory w w' keeps zero k entries h = h
  load_history-KeepsHistory w w' keeps (suc n) k entries h =
      elim (Bool-cases (bytes_eq k sdk.null_hash)) [
        | inl last ↦ ground (arith, h, last)
        | inr more ↦
            let chain : (load_history_entry sdk db radix w k >>= λ entry.
            load_history sdk db radix w entry.previous_history_hash n >>= λ rest. ok (entry ∷ rest))
                ≡ ok entries =
              ground (arith, h, more) in
            let (entry, found, later) = >>=-eq-ok (load_history_entry sdk db radix w k) _ chain in
            let (rest, loaded, built) =
              >>=-eq-ok (load_history sdk db radix w entry.previous_history_hash n) _ later in
            ground (
              arith,
              more,
              built,
              load_history_entry-KeepsHistory w w' keeps k entry found,
              load_history-KeepsHistory w w' keeps n entry.previous_history_hash rest loaded,
            )
      ]

  -- The entry that `update` makes for an account.
  abbrev pub next_entry :
      World db → ℕ → Bytes → Option Bytes → ℕ → Context sdk → HistoryEntry sdk.ChainReference
  next_entry w kind a l amount context =
      let state = state_of_account sdk db radix w a in
      new_entry sdk db radix (record state { height = state.height + 1 }) kind l amount
        context.chain_reference context.timestamp context.public_reference context.private_reference

  abbrev pub next_hash : World db → ℕ → Bytes → Option Bytes → ℕ → Context sdk → Bytes
  next_hash w kind a l amount context =
      entry_hash sdk db radix a (next_entry w kind a l amount context)

  -- `update` stores that entry under its hash, to which the account points, and no other entry.
  update-entries :
      (kind : ℕ) (a : Bytes) (l : Option Bytes) (amount : ℕ) (context : Context sdk)
      (v : Option sdk.Vesting) (t : Option sdk.EscrowTerms) (w w' : World db)
      → update sdk db radix kind a l amount context v t w ≡ done tt w'
      → ((state_of_account sdk db radix w' a).last_history_hash
          ≡ next_hash w kind a l amount context)
        × ((k : Bytes)
            → db.get_raw w'.store Table.account_history k ≡ (
                if bytes_eq (next_hash w kind a l amount context) k
                then some (sdk.encode_entry (next_entry w kind a l amount context))
                else db.get_raw w.store Table.account_history k))
  unfolding update add_history_entry table_id state_of_account load_account_information
  update-entries kind a l amount context v t w w' e =
      let state = state_of_account sdk db radix w a in
      let start = holding_of sdk db radix state in
      let (h, middle, added, rest) =
        bind-eq-done (add_tokens sdk db radix kind a l amount v t start w) _ e in
      let (kept, balance) =
        add_tokens-IsAdded sdk db radix kind a l amount v t start w middle h added in
      let moved = record state {
        height = state.height + 1;
        balance = h.balance;
        locks = h.locks;
      } in
      let entry = next_entry w kind a l amount context in
      let hash = next_hash w kind a l amount context in
      let saved = record moved { last_history_hash = hash } in
      let entered = record middle {
        store = db.put_raw middle.store Table.account_history hash (sdk.encode_entry entry);
      } in
      (
        ground (
          arith,
          save_account_state-state_of sdk db radix a saved entered w' rest a,
          bytes_eq_iff a a,
        ),
        λ k. ground (
          arith,
          save_account_state-entries sdk db radix a saved entered w' rest Table.account_history k
              refl,
          db.get-put middle.store Table.account_history Table.account_history hash k
              (sdk.encode_entry entry),
          kept Table.account_history k (omega arith),
        ),
      )

  load_history-cons :
      (w : World db) (n : ℕ) (k : Bytes) (entry : HistoryEntry sdk.ChainReference)
      (rest : List (HistoryEntry sdk.ChainReference))
      → bytes_eq k sdk.null_hash ≡ false
      → load_history_entry sdk db radix w k ≡ ok entry
      → load_history sdk db radix w entry.previous_history_hash n ≡ ok rest
      → load_history sdk db radix w k (suc n) ≡ ok (entry ∷ rest)
  unfolding load_history
  load_history-cons w n k entry rest h found loaded = ground (arith, h, found, loaded)

  -- An update that ends puts one entry in front of the account's history: where the hash of the
  -- entry is new (it is not the null hash, and no entry is stored under it), the history that was
  -- loaded from the account's last hash before is loaded after it, with the new entry first. It
  -- holds the next height, the kind and the amount, and points back at the last hash before.
  pub update-history :
      (kind : ℕ) (a : Bytes) (l : Option Bytes) (amount : ℕ) (context : Context sdk)
      (v : Option sdk.Vesting) (t : Option sdk.EscrowTerms) (w w' : World db) (n : ℕ)
      (entries : List (HistoryEntry sdk.ChainReference))
      → update sdk db radix kind a l amount context v t w ≡ done tt w'
      → bytes_eq (next_hash w kind a l amount context) sdk.null_hash ≡ false
      → db.get_raw w.store Table.account_history (next_hash w kind a l amount context) ≡ none
      → load_history sdk db radix w (state_of_account sdk db radix w a).last_history_hash n
        ≡ ok entries
      → load_history sdk db radix w' (state_of_account sdk db radix w' a).last_history_hash (suc n)
        ≡ ok (next_entry w kind a l amount context ∷ entries)
  unfolding load_history_entry
  update-history kind a l amount context v t w w' n entries e not_null fresh loaded =
      let (last, stored) = update-entries kind a l amount context v t w w' e in
      let hash = next_hash w kind a l amount context in
      let keeps : KeepsHistory w w' =
        λ k b found. ground (arith, found, fresh, stored k, bytes_eq_iff hash k) in
      let again =
        load_history-KeepsHistory w w' keeps n (state_of_account sdk db radix w a).last_history_hash
          entries loaded in
      let entry = next_entry w kind a l amount context in
      let found : load_history_entry sdk db radix w' hash ≡ ok entry = ground (
        arith,
        stored hash,
        bytes_eq_iff hash hash,
        ap (λ (e : HistoryEntry sdk.ChainReference). ok e) (sdk.decode-encode_entry entry),
      ) in
      rw last (load_history-cons w' n hash entry entries not_null found again)
