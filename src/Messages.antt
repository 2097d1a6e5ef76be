-- ===== src/Messages.antt =====
-- internal/service/message/types.go: messages between vehicles, their signatures and their age. `now`
-- stands for time.Now().Unix(); encoding/json and fmt are the parameter `formats`.
pub mod Trackers
pub mod Service
pub mod Replay
pub mod Age
pub mod Creation
pub mod Verification
pub mod GroupKeys
use v2v_blockchain.Prelude.{
  ℕ, ◌+◌, ◌-◌, ◌%◌, ◌^◌, Bool, true, false, ◌||◌, Option, none, some, length, ltb, ◌==◌,
  if◌then◌else◌, map_option,
}
use v2v_blockchain.Prelude.Int.{ℤ, pos, negsuc, ltb_ℤ}
use v2v_blockchain.Prelude.Eq.{bytes_eq}
use v2v_blockchain.Bytes.{Bytes, Hash, Address}
use v2v_blockchain.Crypto.{Crypto}
use v2v_blockchain.Block.Encoding.{u64_of, i64_of}

-- `kind` and `priority` are uint8 numbers. A string is its bytes.
pub record V2vMessage : Type 0 where
  pub id : Bytes
  pub kind : ℕ
  pub priority : ℕ
  pub sender : Address
  pub receiver : Address
  pub seq_num : ℕ
  pub timestamp : ℤ
  pub payload : Bytes
  pub signature : Bytes
  pub platoon_id : Bytes

pub data SignatureError : Type 0 where
  missing_signature invalid_length recovery_failed sender_mismatch : SignatureError

-- json.Marshal of every field but the signature, `%d`, and the text of a hash.
pub record Formats : Type 0 where
  pub marshal : Bytes → ℕ → ℕ → Address → Address → ℕ → ℤ → Bytes → Bytes → Bytes
  pub decimal : ℕ → Bytes
  pub hash_text : Hash → Bytes

-- The int64 difference a - b, which wraps around.
unfoldable pub sub_i64 : ℤ → ℤ → ℤ
sub_i64 a b = i64_of ((u64_of a + 2 ^ 64 - u64_of b) % 2 ^ 64)

unfoldable pub is_expired : ℤ → V2vMessage → Bool
is_expired now m =
    let diff = sub_i64 now m.timestamp in ltb_ℤ (pos 30) diff || ltb_ℤ diff (negsuc 29)

module _ (c : Crypto) (formats : Formats) where
  -- CalculateHash
  unfoldable pub message_hash : V2vMessage → Hash
  message_hash m = c.keccak256 (
      formats.marshal m.id m.kind m.priority m.sender m.receiver m.seq_num m.timestamp m.payload
        m.platoon_id)

  unfoldable pub with_signature : V2vMessage → Bytes → V2vMessage
  with_signature m sig = record m { signature = sig }

  -- V2VMessage.Sign; `none` is the error of Sign.
  unfoldable pub sign_v2v : V2vMessage → Bytes → Option V2vMessage
  sign_v2v m key = map_option (with_signature m) (c.sign_digest (message_hash m) key)

  unfoldable pub match_sender : Address → Option Address → Option SignatureError
  match_sender sender none = some recovery_failed
  match_sender sender (some a) = if bytes_eq a sender then none else some sender_mismatch

  -- V2VMessage.Verify; `none` is no error.
  unfoldable pub verify_v2v : V2vMessage → Option SignatureError
  verify_v2v m =
      if length m.signature == 0
      then some missing_signature
      else if length m.signature == 65
      then match_sender m.sender (c.recover (message_hash m) m.signature)
      else some invalid_length
