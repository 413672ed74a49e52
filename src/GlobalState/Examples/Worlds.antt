-- ===== src/GlobalState/Examples/Worlds.antt =====
-- An SDK and first states for the examples.
use carmentis_node.Base.{
  refl, true, some, List, [], ◌∷◌, Bytes, get_or, replicate, ◌==◌, if◌then◌else◌, ok,
}
use carmentis_node.Base.Maps.{Map}
use carmentis_node.Base.Ints.{pos}
use carmentis_node.Database.Memory.{Tables, memory}
use carmentis_node.Database.Stores.{table_id}
use carmentis_node.Accounts.Sdk.{AccountState}
use carmentis_node.Accounts.Examples.Codecs.{Amounts, encode_state}
use carmentis_node.Accounts.Examples.Worlds as AccountsWorlds
use carmentis_node.Merkle.{Hashes}
use carmentis_node.RadixTree.Examples as RadixTreeExamples
use carmentis_node.Storage.Examples as StorageExamples
use carmentis_node.GlobalState.Types.{
  Microblock, VirtualBlockchain, other_vb, other_section, ValidatorNode, Protocol, CometParameters,
  Updater, Node, NodeSdk,
}
use carmentis_node.GlobalState.Examples.Codecs.{
  encode_validator_set, decode_validator_set, decode-encode_validator_set, encode_chain_information,
  decode_chain_information, decode-encode_chain_information, encode_block_information,
  decode_block_information, decode-encode_block_information,
}

abbrev pub hashes : Hashes
hashes = record {
  sha256 = λ b. get_or b 0 0 ∷ replicate 31 0;
  null_hash = replicate 32 0;
  sha256-length = λ b. refl;
  null_hash-length = refl;
}

abbrev pub keys_of : Map Bytes → List Bytes
keys_of [] = []
keys_of ((k, v) ∷ l) = k ∷ keys_of l

-- The node of account 1, with 40 tokens at stake and the key 8.
abbrev pub validator : ValidatorNode
validator = record {
  id = 4 ∷ replicate 31 0;
  organization_account = ok (1 ∷ []);
  approved = true;
  public_key_declaration = ok (5 ∷ [], 8 ∷ []);
}

abbrev pub protocol : Protocol
protocol = record {
  staking = record {
    minimum_node_staking_amount = 10;
    maximum_node_staking_amount = 1000;
    unstaking_delay_in_days = 30;
  };
  organization_id = 6 ∷ [];
  maximum_block_size_in_bytes = 100;
  max_microblocks_per_block = 5;
}

abbrev pub sdk : NodeSdk memory
sdk = record {
  accounts = AccountsWorlds.sdk;
  storage = StorageExamples.sdk;
  radix = RadixTreeExamples.sdk;
  hashes = hashes;
  get_keys = λ s t. keys_of (s (table_id t));
  process_challenge = λ disk s seed. ok (3 ∷ []);
  load_validator_node = λ n id. ok validator;
  load_organization_account = λ n id. ok (1 ∷ []);
  load_account_public_key = λ n id. ok (70 ∷ []);
  verify = λ mb key. true;
  comet_address = λ key. get_or key 0 0 ∷ replicate 19 0;
  decode_base64 = λ b. ok b;
  chain_information_key = 0 ∷ [];
  convert_height_to_table_key = λ height. height ∷ [];
  atomics_per_token = 10;
  encode_validator_set = encode_validator_set;
  decode_validator_set = decode_validator_set;
  decode-encode_validator_set = decode-encode_validator_set;
  encode_chain_information = encode_chain_information;
  decode_chain_information = decode_chain_information;
  decode-encode_chain_information = decode-encode_chain_information;
  encode_block_information = encode_block_information;
  decode_block_information = decode_block_information;
  decode-encode_block_information = decode-encode_block_information;
  encode_block_content = λ microblocks. [];
  encode_modified_accounts = λ accounts. [];
  encode_microblock_information = λ mb id kind. kind ∷ id;
  decode_protocol = λ b. ok protocol;
  initial_protocol = protocol;
  escrow_terms = λ id emitter agent start days. get_or id 0 0;
  vesting_terms = λ amount start cliff vesting. amount;
  section_reference = λ hash index. index;
  microblock_reference = λ hash. get_or hash 0 0;
  account_block_fees = 77 ∷ [];
  bk_sent_payment = 12;
  bk_sent_escrow = 6;
  bk_sent_vesting = 4;
  bk_paid_tx_fees = 20;
  bk_paid_block_fees = 22;
  vb_protocol = 2;
  vb_validator_node = 3;
  application_ledger_vb = 4;
  n_virtual_blockchains = 6;
  bk_paid_tx_fees-even = refl;
  bk_paid_block_fees-even = refl;
}

-- Account 1 has 100 tokens, account 77 has block fees of 7, and the validator node is known but has
-- no power on the side of Comet. The trees have their roots.
abbrev fees_account : AccountState Amounts
fees_account = record { height = 1; balance = pos 7; last_history_hash = []; locks = (0, []) }

abbrev pub tables : Tables
tables u =
    if u == 0x0a
    then (1 ∷ [], encode_state AccountsWorlds.rich) ∷ (77 ∷ [], encode_state fees_account) ∷ []
    else if u == 0x0f
    then (5 ∷ [], AccountsWorlds.open_escrow) ∷ []
    else if u == 0x02
    then (0 ∷ [], 60 ∷ []) ∷ (60 ∷ [], 0 ∷ 0 ∷ 0x35 ∷ replicate 33 0) ∷ []
    else if u == 0x13
    then (4 ∷ replicate 31 0, []) ∷ []
    else []

abbrev pub updater : Updater
updater = record {
  validator_set_updates = [];
  new_object_counts = replicate 6 0;
  processed_and_accepted_microblocks = [];
  total_fees = 0;
  block_size_in_bytes = 0;
  block_section_count = 0;
}

abbrev pub node : Node memory
node = record {
  world = record { store = tables; modified = [] };
  committed = tables;
  content_to_be_written = [];
  cached_microblocks = [];
  disk = [];
  new_day_timestamp = 0;
  updater = updater;
}

-- A first microblock of an application ledger, that account 1 pays: 2 of gas at a price of 3.
abbrev pub microblock : Microblock
microblock = record {
  hash = 11 ∷ replicate 31 0;
  previous_hash = 0 ∷ 0 ∷ 0 ∷ 0 ∷ 0 ∷ 0 ∷ 0 ∷ 0 ∷ 9 ∷ [];
  height = 1;
  timestamp = 1000;
  gas = 2;
  gas_price = 3;
  fees_payer_account = some (1 ∷ []);
  sections = other_section ∷ [];
}

abbrev pub ledger : VirtualBlockchain
ledger = record {
  class_ = other_vb;
  id = 0x35 ∷ replicate 31 0;
  kind = 4;
  height = 1;
  expiration_day = 0;
  is_account_id_allowed_to_write = λ a. true;
  serialized_state = λ root. root;
}

abbrev pub parameters : CometParameters
parameters = record { block_height = 5; block_timestamp = 1000; block_misbehaviors = [] }
