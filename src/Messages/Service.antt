-- ===== src/Messages/Service.antt =====
-- internal/service/message/service.go: creating and verifying messages, and the audit log.
use v2v_blockchain.Prelude.{
  ℕ, ◌-◌, Bool, true, false, not, ◌&&◌, Option, none, some, List, [], ◌∷◌, ◌++◌, length, drop, ltb,
  ◌==◌, if◌then◌else◌,
}
use v2v_blockchain.Prelude.Int.{ℤ}
use v2v_blockchain.Prelude.Eq.{bytes_Eq}
use v2v_blockchain.Prelude.GoMap.{GoMap, get, put}
use v2v_blockchain.Bytes.{Bytes, Hash, Address}
use v2v_blockchain.Crypto.{Crypto}
use v2v_blockchain.Messages.{V2vMessage, SignatureError, Formats, is_expired, sign_v2v, verify_v2v}
use v2v_blockchain.Messages.Trackers.{
  SequenceManager, new_sequence_manager, next_seq, MessageIdCache, new_message_id_cache, has_id,
  add_id, cleanup, SenderSeqTracker, check_and_update,
}

-- What the service asks of the identity service: GetIdentity and VerifyNodeAdmission.
pub record Identities : Type 0 where
  pub is_known : Address → Bool
  pub is_admitted : Address → Bool

pub data VerifyFailure : Type 0 where
  duplicate_message expired unknown_sender not_admitted out_of_order : VerifyFailure
  bad_signature : SignatureError → VerifyFailure

-- `reason` is none where there was no error.
pub record AuditLogEntry : Type 0 where
  pub timestamp : ℤ
  pub message_id : Bytes
  pub sender : Address
  pub kind : ℕ
  pub priority : ℕ
  pub verified : Bool
  pub reason : Option VerifyFailure
  pub payload_hash : Hash

pub record VerificationResult : Type 0 where
  pub is_valid : Bool
  pub reason : Option VerifyFailure
  pub sender_known : Bool
  pub not_expired : Bool
  pub not_duplicate : Bool

pub record MessageService : Type 0 where
  pub seq_managers : GoMap Address SequenceManager
  pub id_cache : MessageIdCache
  pub sender_seqs : SenderSeqTracker
  pub audit_logs : List AuditLogEntry
  pub max_audit_logs : ℕ

unfoldable pub new_message_service : MessageService
new_message_service = record {
  seq_managers = [];
  id_cache = new_message_id_cache;
  sender_seqs = [];
  audit_logs = [];
  max_audit_logs = 10000;
}

-- Trim if too many.
unfoldable pub trim : ℕ → List AuditLogEntry → List AuditLogEntry
trim limit logs = if ltb limit (length logs) then drop (length logs - limit) logs else logs

unfoldable pub run_cleanup : ℤ → MessageService → MessageService
run_cleanup now s = record s { id_cache = cleanup now s.id_cache }

unfoldable pub manager_or_new : Option SequenceManager → SequenceManager
manager_or_new none = new_sequence_manager
manager_or_new (some sm) = sm

-- GetNextSeqNum
unfoldable pub get_next_seq_num : Address → MessageService → ℕ × MessageService
get_next_seq_num sender s =
    let (seq, sm) = next_seq (manager_or_new (get s.seq_managers sender)) in
    (seq, record s { seq_managers = put s.seq_managers sender sm })

-- GetAuditLogs for a limit above zero; a limit of zero or less asks for all.
unfoldable pub get_audit_logs : ℕ → MessageService → List AuditLogEntry
get_audit_logs limit s =
    if limit == 0
    then s.audit_logs
    else if ltb (length s.audit_logs) limit
    then s.audit_logs
    else drop (length s.audit_logs - limit) s.audit_logs

module _ (c : Crypto) (formats : Formats) where
  unfoldable pub generate_message_id : Address → ℕ → Bytes
  generate_message_id sender seq_num =
      formats.hash_text (c.keccak256 (sender ++ formats.decimal seq_num))

  -- A sequence number is spent also where signing fails.
  unfoldable pub create_message :
      ℤ
      → ℕ
      → ℕ
      → Address
      → Address
      → Bytes
      → Bytes
      → Bytes
      → MessageService
      → Option V2vMessage × MessageService
  create_message now kind priority sender receiver payload platoon_id key s =
      let (seq_num, s') = get_next_seq_num sender s in
      (
        sign_v2v c formats
            (record {
              id = generate_message_id sender seq_num;
              kind = kind;
              priority = priority;
              sender = sender;
              receiver = receiver;
              seq_num = seq_num;
              timestamp = now;
              payload = payload;
              signature = [];
              platoon_id = platoon_id;
            })
            key,
        s',
      )

  module _ (ids : Identities) (now : ℤ) where
    unfoldable pub log_audit :
        V2vMessage → Bool → Option VerifyFailure → MessageService → MessageService
    log_audit m verified reason s = record s {
      audit_logs = trim s.max_audit_logs (
          s.audit_logs
          ++ record {
            timestamp = now;
            message_id = m.id;
            sender = m.sender;
            kind = m.kind;
            priority = m.priority;
            verified = verified;
            reason = reason;
            payload_hash = c.keccak256 m.payload;
          }
            ∷ []);
    }

    -- An early return: the result so far, with the error, and the log of it.
    unfoldable pub refuse :
        Bool
        → Bool
        → VerifyFailure
        → V2vMessage
        → MessageService
        → VerificationResult × MessageService
    refuse sender_known not_expired reason m s = (
      record {
        is_valid = false;
        reason = some reason;
        sender_known = sender_known;
        not_expired = not_expired;
        not_duplicate = false;
      },
      log_audit m false (some reason) s,
    )

    unfoldable pub accept : V2vMessage → MessageService → VerificationResult × MessageService
    accept m s = (
      record {
        is_valid = true;
        reason = none;
        sender_known = true;
        not_expired = true;
        not_duplicate = true;
      },
      log_audit m true none (record s { id_cache = add_id now m.id s.id_cache }),
    )

    unfoldable pub check_sequence :
        V2vMessage → Bool × SenderSeqTracker → MessageService → VerificationResult × MessageService
    check_sequence m (true, t) s = accept m (record s { sender_seqs = t })
    check_sequence m (false, t) s = refuse true true out_of_order m (record s { sender_seqs = t })

    unfoldable pub check_signature :
        V2vMessage → Option SignatureError → MessageService → VerificationResult × MessageService
    check_signature m none s =
        check_sequence m (check_and_update m.sender m.seq_num s.sender_seqs) s
    check_signature m (some e) s = refuse true true (bad_signature e) m s

    unfoldable pub verify_received :
        V2vMessage → MessageService → VerificationResult × MessageService
    verify_received m s =
        if has_id m.id s.id_cache
        then refuse false false duplicate_message m s
        else if is_expired now m
        then refuse false false expired m s
        else if not (ids.is_known m.sender)
        then refuse false true unknown_sender m s
        else if not (ids.is_admitted m.sender)
        then refuse true true not_admitted m s
        else check_signature m (verify_v2v c formats m) s

    -- VerifyMessagesBatch: each message in its turn.
    unfoldable pub verify_batch :
        List V2vMessage → MessageService → List VerificationResult × MessageService
    verify_batch [] s = ([], s)
    verify_batch (m ∷ ms) s =
        let (r, s') = verify_received m s in let (rs, s'') = verify_batch ms s' in (r ∷ rs, s'')

  unfoldable pub all_valid : List VerificationResult → Bool
  all_valid [] = true
  all_valid (r ∷ rs) = r.is_valid && all_valid rs
