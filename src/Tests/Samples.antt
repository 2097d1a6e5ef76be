-- ===== src/Tests/Samples.antt =====
-- Concrete values for what the program takes from elsewhere: a digest, a signature scheme and an
-- encoding that are easy to compute with.
use v2v_blockchain.Prelude.{
  ◌+◌, ◌%◌, ◌≡◌, refl, true, false, none, some, List, [], ◌∷◌, length, replicate, ok,
}
use v2v_blockchain.Prelude.Int.{pos, negsuc}
use v2v_blockchain.Bytes.{Bytes, Hash, Address, empty_hash}
use v2v_blockchain.Crypto.{Crypto}
use v2v_blockchain.Block.{BlockHeader, Transaction, Block}
use v2v_blockchain.Consensus.Message.{MessageType, PbftMessage, Codec}
use v2v_blockchain.Consensus.ValidatorSet.{ValidatorSet}
use v2v_blockchain.Consensus.Engine.{Engine, follower}
use v2v_blockchain.Consensus.Handlers.{ChainCalls}
use v2v_blockchain.Prelude.Lock.{free}

-- 32 bytes that depend on the length of the input.
abbrev pub sample_digest : Bytes → Hash
sample_digest bytes = (length bytes + 1) % 256 ∷ replicate 31 0

pub sample_digest-size : (bytes : Bytes) → length (sample_digest bytes) ≡ 32
sample_digest-size bytes = refl

-- The signature is the key with filling to 65 bytes, and the address recovered is its beginning.
abbrev pub sample_crypto : Address → Crypto
sample_crypto owner = record {
  keccak256 = sample_digest;
  sign_digest = λ digest key. some (replicate 65 1);
  recover = λ digest sig. some owner;
}

abbrev pub owner : Address
owner = replicate 20 5

abbrev pub other_owner : Address
other_owner = replicate 20 6

abbrev pub header_five : BlockHeader
header_five = record {
  hash = replicate 32 9;
  prev_hash = replicate 32 8;
  timestamp = negsuc 4;
  merkle_root = replicate 32 7;
  validator = owner;
  signature = [];
  tx_count = 1;
  height = 5;
  nonce = 0;
}

abbrev pub payment : Transaction
payment = record {
  hash = empty_hash;
  from = owner;
  to = other_owner;
  kind = 0;
  nonce = 1;
  gas_price = 2;
  gas_limit = 21000;
  value = 7;
  payload = 1 ∷ 2 ∷ [];
  signature = [];
  timestamp = pos 1700000000;
}

abbrev pub block_five : Block
block_five = record { header = header_five; transactions = payment ∷ [] }

-- Every payload decodes, a hash to itself. The digest and nothing else is signed.
abbrev pub sample_codec : Codec
sample_codec = record {
  for_sign = λ kind view seq sender payload digest time. digest;
  encode_pre_prepare = λ p. p.block_hash;
  decode_pre_prepare = λ bytes.
      some (record { block_hash = bytes; block_data = some block_five; validator = owner });
  encode_hash = λ h. h;
  decode_hash = λ bytes. some bytes;
  encode_view_change = λ p. [];
  decode_view_change = λ bytes.
      some (record { new_view_number = 1; last_stable_checkpoint = 0; prepared_proofs = [] });
  encode_new_view = λ p. [];
  decode_new_view = λ bytes. some (record { new_view_number = 1; view_change_proofs = [] });
}

-- The chain is the list of its blocks, the newest first.
abbrev pub sample_calls : ChainCalls (List Block)
sample_calls = record {
  add_block = λ block chain. ok (block ∷ chain);
  latest_height = λ chain. length chain;
  create_block = λ txs validator chain. block_five;
}

-- A node that follows one validator.
abbrev pub sample_engine : ValidatorSet → Engine (List Block)
sample_engine validators = record {
  address = other_owner;
  private_key = 1 ∷ [];
  role = follower;
  chain = [];
  validators = validators;
  view = record { number = 0; primary_node = owner; timestamp = pos 0 };
  states = [];
  states_mu = free;
  vc_mu = free;
  last_checkpoint = 0;
  view_change_state = none;
  request_pool = [];
  high_priority_pool = [];
  max_tx_per_block = 10;
  blocks_committed = 0;
  commit_handler_set = true;
  delivered = [];
  broadcast_set = false;
  sent = [];
}

abbrev pub only_owner : ValidatorSet
only_owner = record { validators = owner ∷ []; primary_idx = 0; view_number = 0 }

abbrev pub sample_message : MessageType → Hash → PbftMessage
sample_message kind digest = record {
  kind = kind;
  view = 0;
  seq_number = 1;
  sender = owner;
  payload = replicate 32 9;
  digest = digest;
  signature = replicate 65 1;
  timestamp = pos 0;
}
