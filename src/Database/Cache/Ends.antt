-- ===== src/Database/Cache/Ends.antt =====
-- `CachedLevelDb.commit` ends without an error.
use carmentis_node.Base.{ℕ, ◌≡◌, refl, true, List, [], ◌∷◌, ◌++◌, arith, ==_refl, ok}
use carmentis_node.Database.Level
use carmentis_node.Database.Level.{Level, Op, is_table, mem_table, table_ids}
use carmentis_node.Database.Cache.{
  Hex, CachedLevelDb, empty_cache, fill_batch, commit, decode_entries, decode_keys, reset_cache,
}

module _ (hex : Hex) (level : Level) where
  -- The loop of `commit` does not throw on an initialized database, over tables that exist.
  fill_batch-ends :
      (c : CachedLevelDb level) (ts : List ℕ) (batch : List Op)
      → c.db.initialized ≡ true
      → ((t : ℕ) → mem_table t ts ≡ true → is_table t ≡ true)
      → (result : List Op) × (fill_batch hex level c ts batch ≡ ok result)
  unfolding fill_batch Level.batch_put Level.batch_del
  fill_batch-ends c [] batch ready known = (batch, refl)
  fill_batch-ends c (t ∷ ts) batch ready known =
      let here : is_table t ≡ true = known t (ground (arith, ==_refl t)) in
      let later : (u : ℕ) → mem_table u ts ≡ true → is_table u ≡ true =
        λ u h. known u (ground arith) in
      let filled : List Op =
        (batch ++ Level.puts level t (decode_entries hex level (c.cached t).insertions))
        ++ Level.dels level t (decode_keys hex level (c.cached t).deletions) in
      let (result, rest) = fill_batch-ends c ts filled ready later in
      (result, rw (here, ready) rest)

  -- A `commit` on an initialized database does not throw, whether its batch is written or not, and
  -- leaves no cached change.
  pub commit-ends :
      (c : CachedLevelDb level) (t : ℕ)
      → c.db.initialized ≡ true
      → (c' : CachedLevelDb level) × (commit hex level c ≡ ok c') × (c'.cached t ≡ empty_cache)
  unfolding commit is_table reset_cache
  commit-ends c t ready =
      let (batch, filled) = fill_batch-ends c table_ids [] ready (λ u h. h) in
      let written = (Level.batch_write level c.db batch).0 in
      (reset_cache hex level (record c { db = written }), rw filled, refl)
