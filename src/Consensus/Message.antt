-- ===== src/Consensus/Message.antt =====
-- internal/core/consensus/types.go: PBFT messages, their signatures and payloads. JSON
-- (encoding/json) is the parameter `codec`.
pub mod Signed
use v2v_blockchain.Prelude.{
  ℕ, zero, suc, ◌≡◌, Bool, true, false, Option, none, some, List, [], if◌then◌else◌, Outcome, ok,
  err, map_option,
}
use v2v_blockchain.Prelude.Int.{ℤ}
use v2v_blockchain.Prelude.Eq.{bytes_eq}
use v2v_blockchain.Bytes.{Bytes, Hash, Address, is_empty}
use v2v_blockchain.Crypto.{Crypto}
use v2v_blockchain.Block.{Block}

-- A uint8; `unknown` stands for the numbers without a name.
pub data MessageType : Type 0 where
  request pre_prepare prepare commit view_change new_view checkpoint : MessageType
  unknown : ℕ → MessageType

pub record PbftMessage : Type 0 where
  pub kind : MessageType
  pub view : ℕ
  pub seq_number : ℕ
  pub sender : Address
  pub payload : Bytes
  pub digest : Hash
  pub signature : Bytes
  pub timestamp : ℤ

-- `none` is a nil block.
pub record PrePreparePayload : Type 0 where
  pub block_hash : Hash
  pub block_data : Option Block
  pub validator : Address

pub record Proof : Type 0 where
  pub view : ℕ
  pub seq_number : ℕ
  pub block_hash : Hash
  pub signatures : List Bytes

pub record ViewChangePayload : Type 0 where
  pub new_view_number : ℕ
  pub last_stable_checkpoint : ℕ
  pub prepared_proofs : List Proof

-- The list of pre-prepare messages is always empty where the engine makes this payload, and no
-- handler reads it.
pub record NewViewPayload : Type 0 where
  pub new_view_number : ℕ
  pub view_change_proofs : List Proof

-- json.Marshal and json.Unmarshal at the types that the engine uses; `none` is an error.
pub record Codec : Type 0 where
  -- serializeForSign: every field but the signature.
  pub for_sign : MessageType → ℕ → ℕ → Address → Bytes → Hash → ℤ → Bytes
  pub encode_pre_prepare : PrePreparePayload → Bytes
  pub decode_pre_prepare : Bytes → Option PrePreparePayload
  -- PreparePayload and CommitPayload hold a block hash.
  pub encode_hash : Hash → Bytes
  pub decode_hash : Bytes → Option Hash
  pub encode_view_change : ViewChangePayload → Bytes
  pub decode_view_change : Bytes → Option ViewChangePayload
  pub encode_new_view : NewViewPayload → Bytes
  pub decode_new_view : Bytes → Option NewViewPayload

pub data VerifyError : Type 0 where
  digest_mismatch recovery_failed sender_mismatch : VerifyError

module _ (c : Crypto) (codec : Codec) where
  unfoldable pub serialize_for_sign : PbftMessage → Bytes
  serialize_for_sign m =
      codec.for_sign m.kind m.view m.seq_number m.sender m.payload m.digest m.timestamp

  unfoldable pub calculate_digest : PbftMessage → Hash
  calculate_digest m = c.keccak256 (serialize_for_sign m)

  -- The digest is filled in if it is not set.
  unfoldable pub with_digest : PbftMessage → PbftMessage
  with_digest m = if is_empty m.digest then record m { digest = calculate_digest m } else m

  abbrev pub attach : PbftMessage → Bytes → PbftMessage
  attach m sig = record m { signature = sig }

  -- PBFTMessage.Sign; `none` is the error of ToECDSA or Sign.
  unfoldable pub sign_message : PbftMessage → Bytes → Option PbftMessage
  sign_message m key =
      let d = with_digest m in map_option (attach d) (c.sign_digest (calculate_digest d) key)

  unfoldable pub check_sender : Address → Option Address → Outcome VerifyError (Unit {0})
  check_sender sender none = err recovery_failed
  check_sender sender (some a) = if bytes_eq a sender then ok tt else err sender_mismatch

  -- PBFTMessage.Verify; the public key that it is given is not used.
  unfoldable pub verify_message : PbftMessage → Outcome VerifyError (Unit {0})
  verify_message m =
      if bytes_eq (calculate_digest m) m.digest
      then check_sender m.sender (c.recover (calculate_digest m) m.signature)
      else err digest_mismatch
