-- ===== src/GlobalState/Examples/Codecs.antt =====
-- Codecs of the entries of the global state, for the examples.
use carmentis_node.Base.{◌≡◌, [], ◌∷◌, Bytes, arith}
use carmentis_node.Accounts.Examples.Codecs.{join, split, split-join}
use carmentis_node.GlobalState.Types.{
  ValidatorSet, ChainInformation, ApplicationStateHashes, BlockInformation,
}

abbrev pub encode_validator_set : ValidatorSet → Bytes
encode_validator_set v =
    v.voting_power
    ∷ join v.validator_node_hash (join v.public_key_type (join v.public_key_bytes []))

abbrev pub decode_validator_set : Bytes → ValidatorSet
decode_validator_set [] = record {
  validator_node_hash = [];
  public_key_type = [];
  public_key_bytes = [];
  voting_power = 0;
}
decode_validator_set (power ∷ l) =
    let (hash, l1) = split l in
    let (key_type, l2) = split l1 in
    record {
      validator_node_hash = hash;
      public_key_type = key_type;
      public_key_bytes = (split l2).0;
      voting_power = power;
    }

pub decode-encode_validator_set :
    (v : ValidatorSet) → decode_validator_set (encode_validator_set v) ≡ v
decode-encode_validator_set v =
    let l2 = join v.public_key_bytes [] in
    ground (
      arith,
      split-join v.validator_node_hash (join v.public_key_type l2),
      split-join v.public_key_type l2,
      split-join v.public_key_bytes [],
    )

abbrev pub encode_chain_information : ChainInformation → Bytes
encode_chain_information c =
    c.height
    ∷ c.last_block_timestamp
    ∷ c.microblock_count
    ∷ join c.object_counts (join c.protocol_virtual_blockchain_id [])

abbrev pub decode_chain_information : Bytes → ChainInformation
decode_chain_information (height ∷ timestamp ∷ count ∷ l) =
    let (counts, l1) = split l in
    record {
      height = height;
      last_block_timestamp = timestamp;
      microblock_count = count;
      object_counts = counts;
      protocol_virtual_blockchain_id = (split l1).0;
    }
decode_chain_information l = record {
  height = 0;
  last_block_timestamp = 0;
  microblock_count = 0;
  object_counts = [];
  protocol_virtual_blockchain_id = [];
}

pub decode-encode_chain_information :
    (c : ChainInformation) → decode_chain_information (encode_chain_information c) ≡ c
decode-encode_chain_information c = ground (
  arith,
  split-join c.object_counts (join c.protocol_virtual_blockchain_id []),
  split-join c.protocol_virtual_blockchain_id [],
)

abbrev pub encode_hashes : ApplicationStateHashes → Bytes
encode_hashes h =
    join h.vb_radix_hash
      (join h.token_radix_hash (join h.radix_hash (join h.storage_hash (join h.app_hash []))))

abbrev pub decode_hashes : Bytes → ApplicationStateHashes
decode_hashes l =
    let (vb, l1) = split l in
    let (token, l2) = split l1 in
    let (radix, l3) = split l2 in
    let (storage, l4) = split l3 in
    record {
      vb_radix_hash = vb;
      token_radix_hash = token;
      radix_hash = radix;
      storage_hash = storage;
      app_hash = (split l4).0;
    }

pub decode-encode_hashes : (h : ApplicationStateHashes) → decode_hashes (encode_hashes h) ≡ h
decode-encode_hashes h =
    let l4 = join h.app_hash [] in
    let l3 = join h.storage_hash l4 in
    let l2 = join h.radix_hash l3 in
    let l1 = join h.token_radix_hash l2 in
    ground (
      arith,
      split-join h.vb_radix_hash l1,
      split-join h.token_radix_hash l2,
      split-join h.radix_hash l3,
      split-join h.storage_hash l4,
      split-join h.app_hash [],
    )

abbrev pub encode_block_information : BlockInformation → Bytes
encode_block_information b =
    b.timestamp
    ∷ b.size
    ∷ b.microblock_count
    ∷ join b.hash (join b.proposer_address (encode_hashes b.application_state_hashes))

abbrev pub decode_block_information : Bytes → BlockInformation
decode_block_information (timestamp ∷ size ∷ count ∷ l) =
    let (hash, l1) = split l in
    let (proposer, l2) = split l1 in
    record {
      hash = hash;
      timestamp = timestamp;
      proposer_address = proposer;
      application_state_hashes = decode_hashes l2;
      size = size;
      microblock_count = count;
    }
decode_block_information l = record {
  hash = [];
  timestamp = 0;
  proposer_address = [];
  application_state_hashes = decode_hashes [];
  size = 0;
  microblock_count = 0;
}

pub decode-encode_block_information :
    (b : BlockInformation) → decode_block_information (encode_block_information b) ≡ b
decode-encode_block_information b =
    let l2 = encode_hashes b.application_state_hashes in
    ground (
      arith,
      split-join b.hash (join b.proposer_address l2),
      split-join b.proposer_address l2,
      decode-encode_hashes b.application_state_hashes,
    )
