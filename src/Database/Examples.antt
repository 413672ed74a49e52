-- ===== src/Database/Examples.antt =====
-- An in-memory `level`, runs of the write cache over it, and its theorems at concrete inputs.
use carmentis_node.Base.{
  ℕ, suc, ◌-◌, ◌≡◌, refl, ap, true, none, some, List, [], ◌∷◌, Bytes, arith, ◌==◌, bytes_eq,
  if◌then◌else◌, is_some, ok,
}
use carmentis_node.Base.Maps.{
  Map, find, insert, erase, has, has_key, keep, keys, add, remove, find-insert, find-erase,
}
use carmentis_node.Database.Level
use carmentis_node.Database.Level.{Level, LevelDb, Op, put, effect, is_table, table_ids}
use carmentis_node.Database.Cache
use carmentis_node.Database.Cache.{
  Hex, CachedLevelDb, TableCache, create, fill_batch, commit, reset_cache,
}
use carmentis_node.Database.Cache.Valid.{
  IsValid, view, create-IsValid, put_raw-IsValid, del-IsValid,
}
use carmentis_node.Database.Cache.Reads.{get_raw-del, get_full_table-view, get_keys-view}
use carmentis_node.Database.Cache.Ends.{commit-ends}
use carmentis_node.Database.Cache.{empty_cache}
use carmentis_node.Database.Cache.Commit.{commit-written, commit-lost}

abbrev Tables : Type 0
Tables = ℕ → Map Bytes

abbrev apply : List Op → Tables → Tables
apply [] s = s
apply (put u j v ∷ ops) s = apply ops (λ t. if u == t then insert j v (s t) else s t)
apply (Op.del u j ∷ ops) s = apply ops (λ t. if u == t then erase j (s t) else s t)

find-apply :
    (ops : List Op) (s : Tables) (t : ℕ) (k : Bytes)
    → find k (apply ops s t) ≡ effect ops t k (find k (s t))
find-apply [] s t k = refl
find-apply (put u j v ∷ ops) s t k = ground (
  arith,
  find-apply ops (λ w. if u == w then insert j v (s w) else s w) t k,
  find-insert j k v (s t),
)
find-apply (Op.del u j ∷ ops) s t k =
    ground
      (arith, find-apply ops (λ w. if u == w then erase j (s w) else s w) t k, find-erase j k (s t))

memory-write :
    (s s' : Tables) (ops : List Op) (t : ℕ) (k : Bytes)
    → some (apply ops s) ≡ some s'
    → find k (s' t) ≡ effect ops t k (find k (s t))
memory-write s s' ops t k e =
    let same : apply ops s ≡ s' = cc in
    rw (← ap (λ (f : Tables). find k (f t)) same) (find-apply ops s t k)

abbrev memory : Level
memory = record {
  Store = Tables;
  get = λ s t k. find k (s t);
  entries = λ s t. s t;
  write = λ s ops. some (apply ops s);
  get-entries = λ s t k. refl;
  get-write = memory-write;
}

-- A level whose batches cannot be written.
broken-write :
    (s s' : Tables) (ops : List Op) (t : ℕ) (k : Bytes)
    → none ≡ some s'
    → find k (s' t) ≡ effect ops t k (find k (s t))
broken-write s s' ops t k e = cc

abbrev broken : Level
broken = record {
  Store = Tables;
  get = λ s t k. find k (s t);
  entries = λ s t. s t;
  write = λ s ops. none;
  get-entries = λ s t k. refl;
  get-write = broken-write;
}

-- Any codec will do: here every byte is moved up by one.
abbrev raise : Bytes → Bytes
raise [] = []
raise (b ∷ l) = suc b ∷ raise l

abbrev lower : Bytes → Bytes
lower [] = []
lower (b ∷ l) = (b - 1) ∷ lower l

lower-raise : (k : Bytes) → lower (raise k) ≡ k
lower-raise [] = refl
lower-raise (b ∷ l) = ground (arith, lower-raise l)

abbrev hex : Hex
hex = record { encode_key = raise; decode_key = lower; decode-encode = lower-raise }

-- Table 3 holds one committed entry.
abbrev tables : Tables
tables t = if t == 3 then (7 ∷ [], 70 ∷ []) ∷ [] else []

abbrev cached : CachedLevelDb memory
cached = create hex memory (record { store = tables; initialized = true })

abbrev new_entry : TableCache
new_entry = record { insertions = (9 ∷ [], 80 ∷ []) ∷ []; deletions = [] }

-- `cached` after a write at key 8 of table 3.
abbrev written : CachedLevelDb memory
written = Cache.set_cached hex memory cached 3 new_entry

abbrev both : TableCache
both = record { insertions = (9 ∷ [], 80 ∷ []) ∷ []; deletions = (8 ∷ []) ∷ [] }

-- And after the deletion of key 7.
abbrev changed : CachedLevelDb memory
changed = Cache.set_cached hex memory written 3 both

put_raw-cached : Cache.put_raw hex memory cached 3 (8 ∷ []) (80 ∷ []) ≡ ok written
unfolding Cache.put_raw insert create is_table remove
put_raw-cached = refl

del-written : Cache.del hex memory written 3 (7 ∷ []) ≡ ok changed
unfolding Cache.del erase create is_table bytes_eq add has
del-written = refl

cached-IsValid : IsValid hex memory cached
cached-IsValid = create-IsValid hex memory (record { store = tables; initialized = true })

written-IsValid : IsValid hex memory written
written-IsValid =
    put_raw-IsValid hex memory cached written 3 (8 ∷ []) (80 ∷ []) cached-IsValid put_raw-cached

changed-IsValid : IsValid hex memory changed
changed-IsValid = del-IsValid hex memory written changed 3 (7 ∷ []) written-IsValid del-written

-- Key 7 was deleted, and is read all the same.
get_raw-del_example : Cache.get_raw hex memory changed 3 (7 ∷ []) ≡ ok (some (70 ∷ []))
unfolding Level.get_raw is_table find bytes_eq create
get_raw-del_example = get_raw-del hex memory written changed 3 (7 ∷ []) del-written

get_full_table-view_example :
    find (8 ∷ []) ((8 ∷ [], 80 ∷ []) ∷ []) ≡ view hex memory changed 3 (8 ∷ [])
unfolding Cache.get_full_table Level.get_full_table is_table has has_key bytes_eq keep find create
get_full_table-view_example =
    get_full_table-view hex memory changed 3 (8 ∷ []) ((8 ∷ [], 80 ∷ []) ∷ []) changed-IsValid refl

get_keys-view_example : has (8 ∷ []) ((8 ∷ []) ∷ []) ≡ is_some (view hex memory changed 3 (8 ∷ []))
unfolding Cache.get_keys Level.get_keys is_table has has_key bytes_eq keys find create
get_keys-view_example =
    get_keys-view hex memory changed 3 (8 ∷ []) ((8 ∷ []) ∷ []) changed-IsValid refl

abbrev batch : List Op
batch = put 3 (8 ∷ []) (80 ∷ []) ∷ Op.del 3 (7 ∷ []) ∷ []

fill_batch-changed : fill_batch hex memory changed table_ids [] ≡ ok batch
unfolding fill_batch Level.batch_put Level.batch_del is_table keys create
fill_batch-changed = refl

abbrev committed : CachedLevelDb memory
committed =
    reset_cache hex memory
      (record changed { db = record { store = apply batch tables; initialized = true } })

commit-written_example :
    (Level.get_raw memory committed.db 3 (7 ∷ []) ≡ view hex memory changed 3 (7 ∷ []))
    × (view hex memory committed 3 (7 ∷ []) ≡ view hex memory changed 3 (7 ∷ []))
unfolding commit Level.batch_write is_table create
commit-written_example =
    commit-written hex memory changed committed batch 3 (7 ∷ []) changed-IsValid fill_batch-changed
      refl (rw fill_batch-changed) refl

-- The same changes over a level that cannot write.
abbrev stuck : CachedLevelDb broken
stuck = record { db = record { store = tables; initialized = true }; cached = changed.cached }

commit-lost_example : commit hex broken stuck ≡ ok (reset_cache hex broken stuck)
unfolding fill_batch Level.batch_put Level.batch_del is_table keys create Level.batch_write
commit-lost_example = commit-lost hex broken stuck batch refl refl

put_raw-IsValid_example : IsValid hex memory written
put_raw-IsValid_example =
    put_raw-IsValid hex memory cached written 3 (8 ∷ []) (80 ∷ []) cached-IsValid put_raw-cached

commit-ends_example :
    (c' : CachedLevelDb broken) × (commit hex broken stuck ≡ ok c') × (c'.cached 3 ≡ empty_cache)
commit-ends_example = commit-ends hex broken stuck 3 refl
