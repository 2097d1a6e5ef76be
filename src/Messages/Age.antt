-- ===== src/Messages/Age.antt =====
-- message/types.go: IsExpired, with the int64 subtraction that it makes.
use v2v_blockchain.Prelude.{ℕ, ◌≡◌, ◌≤◌, ◌<◌, ◌+◌, ◌^◌, ◌↔◌, Bool, false, ◌||◌, arith}
use v2v_blockchain.Prelude.Int.{ℤ, pos, negsuc, pos_part, neg_part, ltb_ℤ}
use v2v_blockchain.Block.Encoding.{u64_of, i64_of, IsInt64}
use v2v_blockchain.Messages.{V2vMessage, sub_i64, is_expired}

-- At most 30 seconds apart, as exact numbers: a + 30 is at least b and b + 30 at least a.
abbrev pub Near : ℤ → ℤ → Type 0
Near a b =
    (pos_part b + neg_part a ≤ pos_part a + neg_part b + 30)
    × (pos_part a + neg_part b ≤ pos_part b + neg_part a + 30)

sub_expired : ℤ → ℤ → Bool
sub_expired now t = let diff = sub_i64 now t in ltb_ℤ (pos 30) diff || ltb_ℤ diff (negsuc 29)

sub_expired-Near :
    (now : ℕ) (t : ℤ)
    → now < 2 ^ 62
    → IsInt64 t
    → (sub_expired (pos now) t ≡ false) ↔ Near (pos now) t
unfolding sub_expired sub_i64 u64_of i64_of
sub_expired-Near now (pos n) small range = ground arith
sub_expired-Near now (negsuc n) small range = ground arith

-- At a time before 2 ^ 62, and for any int64 timestamp, a message counts as not expired exactly if its
-- timestamp is at most 30 seconds away: the subtraction wraps around nowhere that matters.
pub is_expired-Near :
    (now : ℕ) (m : V2vMessage)
    → now < 2 ^ 62
    → IsInt64 m.timestamp
    → (is_expired (pos now) m ≡ false) ↔ Near (pos now) m.timestamp
unfolding is_expired sub_expired
is_expired-Near now m small range = sub_expired-Near now m.timestamp small range
