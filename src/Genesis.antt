-- ===== src/Genesis.antt =====
-- The allocation of the genesis block, read from a file (src/carmentis/abci/GenesisRunoff.ts).
use carmentis_node.Base.{
  ◌≡◌, Option, none, some, List, [], ◌∷◌, Bytes, bytes_eq, if◌then◌else◌, Result, ok, thrown, arith,
  bytes_eq_iff,
}

-- `GenesisRunoffType`, whose entries have identifiers; actions have none.
pub record Schema : Type 1 where
  pub Account : Type 0
  pub Organization : Type 0
  pub Node : Type 0
  pub Vesting : Type 0
  pub Action : Type 0
  pub account_id : Account → Bytes
  pub organization_id : Organization → Bytes
  pub node_id : Node → Bytes
  pub vesting_id : Vesting → Bytes

pub record GenesisRunoff (schema : Schema) : Type 0 where
  pub organizations : List schema.Organization
  pub nodes : List schema.Node
  pub vesting : List schema.Vesting
  pub accounts : List schema.Account
  pub actions : List schema.Action

-- `list.find((obj) => obj.id === id)`, or an error
unfoldable pub find_by_id : {A : Type 0} → (A → Bytes) → Bytes → List A → Result A
find_by_id id_of id [] = thrown
find_by_id id_of id (obj ∷ list) =
    let rest = find_by_id id_of id list in if bytes_eq (id_of obj) id then ok obj else rest

module _ (schema : Schema) where
  -- `noRunoff`
  abbrev pub no_runoff : GenesisRunoff schema
  no_runoff = record { organizations = []; nodes = []; vesting = []; accounts = []; actions = [] }

  -- `loadFromFilePathOrCreateNoRunoff`, on the content of the file, if there is one, and the parser
  -- and validator, which may throw
  unfoldable pub load_from_file_path_or_create_no_runoff :
      Option Bytes → (Bytes → Result (GenesisRunoff schema)) → Result (GenesisRunoff schema)
  load_from_file_path_or_create_no_runoff none parse = ok no_runoff
  load_from_file_path_or_create_no_runoff (some content) parse = parse content

  abbrev pub get_account_by_id_or_fail : GenesisRunoff schema → Bytes → Result schema.Account
  get_account_by_id_or_fail r id = find_by_id schema.account_id id r.accounts

  abbrev pub get_organization_by_id_or_fail :
      GenesisRunoff schema → Bytes → Result schema.Organization
  get_organization_by_id_or_fail r id = find_by_id schema.organization_id id r.organizations

  abbrev pub get_node_by_id_or_fail : GenesisRunoff schema → Bytes → Result schema.Node
  get_node_by_id_or_fail r id = find_by_id schema.node_id id r.nodes

  abbrev pub get_vesting_by_id : GenesisRunoff schema → Bytes → Result schema.Vesting
  get_vesting_by_id r id = find_by_id schema.vesting_id id r.vesting

-- An entry that is found has the identifier that was asked for.
pub find_by_id-id :
    {A : Type 0} (id_of : A → Bytes) (id : Bytes) (list : List A) (a : A)
    → find_by_id id_of id list ≡ ok a
    → id_of a ≡ id
unfolding find_by_id
find_by_id-id id_of id [] a e = cc
find_by_id-id id_of id (obj ∷ list) a e =
    ground (arith, bytes_eq_iff (id_of obj) id, e, find_by_id-id id_of id list a)
