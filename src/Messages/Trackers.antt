-- ===== src/Messages/Trackers.antt =====
-- internal/service/message/types.go: sequence numbers, and the cache of message ids.
use v2v_blockchain.Prelude.{
  ℕ, ◌+◌, ◌%◌, ◌^◌, Bool, true, false, Option, none, some, [], ◌∷◌, leb, if◌then◌else◌,
}
use v2v_blockchain.Prelude.Int.{ℤ, pos, ltb_ℤ}
use v2v_blockchain.Prelude.Eq.{bytes_Eq}
use v2v_blockchain.Prelude.GoMap.{GoMap, get, put}
use v2v_blockchain.Bytes.{Bytes, Address}
use v2v_blockchain.Messages.{sub_i64}

pub record SequenceManager : Type 0 where
  pub next_seq_num : ℕ

unfoldable pub new_sequence_manager : SequenceManager
new_sequence_manager = record { next_seq_num = 1 }

-- Next: AddUint64(&n, 1) - 1
unfoldable pub next_seq : SequenceManager → ℕ × SequenceManager
next_seq sm = (sm.next_seq_num, record { next_seq_num = (sm.next_seq_num + 1) % 2 ^ 64 })

-- Set, for recovery.
unfoldable pub set_seq : ℕ → SequenceManager → SequenceManager
set_seq seq_num sm = record { next_seq_num = (seq_num + 1) % 2 ^ 64 }

pub record MessageIdCache : Type 0 where
  pub ids : GoMap Bytes ℤ
  pub max_age : ℤ

unfoldable pub new_message_id_cache : MessageIdCache
new_message_id_cache = record { ids = []; max_age = pos 600 }

unfoldable pub is_present : Option ℤ → Bool
is_present none = false
is_present (some t) = true

unfoldable pub has_id : Bytes → MessageIdCache → Bool
has_id id cache = is_present (get cache.ids id)

unfoldable pub add_id : ℤ → Bytes → MessageIdCache → MessageIdCache
add_id now id cache = record cache { ids = put cache.ids id now }

unfoldable pub keep_recent : ℤ → ℤ → GoMap Bytes ℤ → GoMap Bytes ℤ
keep_recent now max_age [] = []
keep_recent now max_age ((id, t) ∷ ids) =
    let rest = keep_recent now max_age ids in
    if ltb_ℤ max_age (sub_i64 now t) then rest else (id, t) ∷ rest

unfoldable pub cleanup : ℤ → MessageIdCache → MessageIdCache
cleanup now cache = record cache { ids = keep_recent now cache.max_age cache.ids }

-- SenderSeqTracker: the last accepted number of each sender.
abbrev pub SenderSeqTracker : Type 0
SenderSeqTracker = GoMap Address ℕ

unfoldable pub update_after : Option ℕ → Address → ℕ → SenderSeqTracker → Bool × SenderSeqTracker
update_after none sender seq_num t = (true, put t sender seq_num)
update_after (some last) sender seq_num t =
    if leb seq_num last then (false, t) else (true, put t sender seq_num)

unfoldable pub check_and_update : Address → ℕ → SenderSeqTracker → Bool × SenderSeqTracker
check_and_update sender seq_num t = update_after (get t sender) sender seq_num t

unfoldable pub get_last_seq : Address → SenderSeqTracker → Option ℕ
get_last_seq sender t = get t sender
