-- ===== src/Accounts/Tree.antt =====
-- The radix tree of the states of the accounts (`accountRadix` of AccountManager.ts).
use carmentis_node.Database.Stores.{Table, Database}
use carmentis_node.Accounts.Sdk.{Radix}
use carmentis_node.RadixTree.Nodes.{RadixSdk}
use carmentis_node.RadixTree.Write.{set_pair}
use carmentis_node.RadixTree.Confined.{set_pair-IsConfined}

pub account_radix : RadixSdk → (db : Database) → Radix db
account_radix sdk db = record {
  set = λ s k v. set_pair sdk db Table.token_radix k v s;
  set-frame = λ s k v t j other. set_pair-IsConfined sdk db Table.token_radix k v s t j other;
}
