-- ===== src/Tests/MessageTests.antt =====
-- message/: messages of one sender at a service that knows it.
use v2v_blockchain.Prelude.{
  ℕ, Option, none, some, ◌≡◌, ◌↔◌, refl, true, false, List, [], ◌∷◌, length, replicate, map, arith,
  some-eq, ◌++◌,
}
use v2v_blockchain.Prelude.Int.{pos}
use v2v_blockchain.Prelude.Eq.{bytes_eq, bytes_Eq}
use v2v_blockchain.Prelude.GoMap.{get, put}
use v2v_blockchain.Bytes.{Bytes}
use v2v_blockchain.Block.Encoding.{i64_of, u64_of}
use v2v_blockchain.Messages.{
  V2vMessage, Formats, is_expired, sub_i64, verify_v2v, match_sender, message_hash, sign_v2v,
  with_signature,
}
use v2v_blockchain.Messages.Service.{
  Identities, new_message_service, create_message, check_signature, check_sequence, accept, refuse,
  log_audit, trim, run_cleanup, get_next_seq_num, manager_or_new, generate_message_id,
  verify_received,
}
use v2v_blockchain.Messages.Trackers.{
  has_id, is_present, new_message_id_cache, check_and_update, update_after, add_id, cleanup,
  keep_recent, next_seq, new_sequence_manager,
}
use v2v_blockchain.Messages.Verification.{Effect, verify_received-Effect}
use v2v_blockchain.Messages.Replay.{
  Call, verify, clean, serve, keep_valid, Increasing, serve-Increasing,
}
use v2v_blockchain.Messages.Age.{Near, is_expired-Near}
use v2v_blockchain.Messages.Creation.{create_message-verify_received}
use v2v_blockchain.Messages.GroupKeys.{
  KeyPairs, Encrypts, encrypt_message, decrypt_message-encrypt_message,
}
use v2v_blockchain.Tests.Samples.{
  sample_crypto, sample_digest, sample_digest-size, owner, other_owner,
}

abbrev plain_formats : Formats
plain_formats = record {
  marshal = λ id kind priority sender receiver seq_num timestamp payload platoon_id. payload;
  decimal = λ n. n ∷ [];
  hash_text = λ hash. hash;
}

abbrev everyone : Identities
everyone = record { is_known = λ a. true; is_admitted = λ a. true }

abbrev greeting : V2vMessage
greeting = record {
  id = 7 ∷ [];
  kind = 1;
  priority = 0;
  sender = owner;
  receiver = other_owner;
  seq_num = 1;
  timestamp = pos 1000;
  payload = 1 ∷ 2 ∷ [];
  signature = replicate 65 1;
  platoon_id = [];
}

abbrev second_greeting : V2vMessage
second_greeting = record greeting { id = 8 ∷ []; seq_num = 2 }

-- A repetition, and then after the cache has been cleaned, and a new message.
abbrev afternoon : List Call
afternoon =
    verify (pos 1000) everyone greeting
    ∷ verify (pos 1001) everyone greeting
    ∷ clean (pos 1002)
    ∷ verify (pos 1003) everyone second_greeting
    ∷ verify (pos 1004) everyone greeting
    ∷ []

serve-afternoon :
    map (λ m. m.seq_num) (serve (sample_crypto owner) plain_formats afternoon new_message_service).0
    ≡ 1 ∷ 2 ∷ []
unfolding serve keep_valid verify_received has_id is_present get put new_message_service
    new_message_id_cache is_expired sub_i64 i64_of u64_of verify_v2v match_sender message_hash
    check_signature check_and_update update_after check_sequence accept refuse log_audit trim add_id
    cleanup keep_recent run_cleanup bytes_eq
serve-afternoon = refl

serve-Increasing_example :
    Increasing (serve (sample_crypto owner) plain_formats afternoon new_message_service).0
serve-Increasing_example =
    serve-Increasing (sample_crypto owner) plain_formats afternoon new_message_service

verify_received-Effect_example :
    Effect
      (sample_crypto owner)
      plain_formats
      everyone
      (pos 1000)
      greeting
      new_message_service
      (verify_received
        (sample_crypto owner)
        plain_formats
        everyone
        (pos 1000)
        greeting
        new_message_service).0
      (verify_received
        (sample_crypto owner)
        plain_formats
        everyone
        (pos 1000)
        greeting
        new_message_service).1
verify_received-Effect_example =
    verify_received-Effect (sample_crypto owner) plain_formats everyone (pos 1000) greeting
      new_message_service

is_expired-Near_example : (is_expired (pos 1030) greeting ≡ false) ↔ Near (pos 1030) (pos 1000)
is_expired-Near_example = is_expired-Near 1030 greeting (omega arith) (omega arith)

sized_sig : (sig : Bytes) → replicate 65 1 ≡ sig → length sig ≡ 65
sized_sig sig h = rw (← h) refl

-- What CreateMessage makes for the first message of the sender.
abbrev created : V2vMessage
created = record greeting { id = sample_digest (owner ++ 1 ∷ []) }

create_message-verify_received_example :
    (verify_received
      (sample_crypto owner)
      plain_formats
      everyone
      (pos 1020)
      created
      new_message_service).0.is_valid
    ≡ true
unfolding create_message get_next_seq_num manager_or_new next_seq new_sequence_manager
    new_message_service get put generate_message_id sign_v2v with_signature message_hash has_id
    is_present new_message_id_cache
create_message-verify_received_example =
    create_message-verify_received (sample_crypto owner) plain_formats 1000 1020 1 0 owner
      other_owner (1 ∷ 2 ∷ []) [] (9 ∷ []) new_message_service new_message_service everyone created
      (omega arith) (omega arith) (omega arith)
      (record { sized = λ d sig h. sized_sig sig (some-eq h); recovers = λ d sig h. refl }) refl
      refl refl refl tt

-- A key pair is a number, written with a prefix.
abbrev read_number : Bytes → Option ℕ
read_number (prefix ∷ n ∷ []) = some n
read_number _ = none

abbrev number_keys : KeyPairs ℕ ℕ
number_keys = record {
  public_key = λ n. n;
  from_ecdsa_pub = λ n. 4 ∷ n ∷ [];
  unmarshal_pubkey = read_number;
}

decrypt_message-encrypt_message_example :
    Encrypts
      (sample_crypto owner)
      sample_digest-size
      number_keys
      (some 5)
      6
      (1 ∷ 2 ∷ 3 ∷ [])
      (encrypt_message (sample_crypto owner) number_keys (some 5) (1 ∷ 2 ∷ 3 ∷ []) (4 ∷ 6 ∷ []))
decrypt_message-encrypt_message_example =
    decrypt_message-encrypt_message (sample_crypto owner) sample_digest-size number_keys (some 5) 6
      (1 ∷ 2 ∷ 3 ∷ []) (λ n. refl) (omega arith, (omega arith, (omega arith, tt)))
