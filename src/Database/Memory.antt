-- ===== src/Database/Memory.antt =====
-- Tables in memory, for the examples.
use carmentis_node.Base.{ℕ, ◌≡◌, false, Option, some, Bytes, arith, ◌==◌, if◌then◌else◌}
use carmentis_node.Base.Maps.{Map, find, insert, erase, find-insert, find-erase}
use carmentis_node.Database.Stores.{Table, table_id, same_entry, Database}

abbrev pub Tables : Type 0
Tables = ℕ → Map Bytes

abbrev pub read_table : Tables → Table → Bytes → Option Bytes
read_table s t k = find k (s (table_id t))

abbrev pub write_table : Tables → Table → Bytes → Bytes → Tables
write_table s t k v = λ u. if table_id t == u then insert k v (s u) else s u

abbrev pub erase_in_table : Tables → Table → Bytes → Tables
erase_in_table s t k = λ u. if table_id t == u then erase k (s u) else s u

pub read-write :
    (s : Tables) (t u : Table) (k j v : Bytes)
    → read_table (write_table s t k v) u j
      ≡ (if same_entry t k u j then some v else read_table s u j)
read-write s t u k j v = ground (arith, find-insert k j v (s (table_id u)))

pub read-erase :
    (s : Tables) (t u : Table) (k j : Bytes)
    → same_entry t k u j ≡ false
    → read_table (erase_in_table s t k) u j ≡ read_table s u j
read-erase s t u k j other = ground (arith, other, find-erase k j (s (table_id u)))

abbrev pub memory : Database
memory = record {
  Store = Tables;
  get_raw = read_table;
  put_raw = write_table;
  del = erase_in_table;
  get-put = read-write;
  get-del = read-erase;
}
