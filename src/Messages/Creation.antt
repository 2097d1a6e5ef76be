-- ===== src/Messages/Creation.antt =====
-- message/service.go: a message that CreateMessage made, at a service that receives it.
use v2v_blockchain.Prelude.{
  ℕ, ◌≡◌, ◌≤◌, ◌+◌, ◌^◌, ◌<◌, refl, sym, true, false, none, some, [], map_option-eq-some, arith,
  inl, inr,
}
use mathlib.Core.Path.{subst}
use v2v_blockchain.Prelude.Int.{pos}
use v2v_blockchain.Prelude.Eq.{bytes_eq, bytes_eq_iff, bytes_Eq}
use v2v_blockchain.Prelude.GoMap.{get}
use v2v_blockchain.Bytes.{Bytes, Address}
use v2v_blockchain.Crypto.{Crypto}
use v2v_blockchain.Block.Identity.{Signs}
use v2v_blockchain.Messages.{
  V2vMessage, Formats, is_expired, message_hash, with_signature, sign_v2v, match_sender, verify_v2v,
}
use v2v_blockchain.Messages.Trackers.{has_id}
use v2v_blockchain.Messages.Service.{
  MessageService, Identities, generate_message_id, create_message, verify_received,
  get_next_seq_num,
}
use v2v_blockchain.Messages.Age.{is_expired-Near}
use v2v_blockchain.Messages.Verification.{Fresh, verify_received-Effect}

module _ (c : Crypto) (formats : Formats) where
  verify_v2v-with_signature :
      (key : Bytes) (m : V2vMessage) (sig : Bytes)
      → Signs c key m.sender
      → c.sign_digest (message_hash c formats m) key ≡ some sig
      → verify_v2v c formats (with_signature c formats m sig) ≡ none
  unfolding verify_v2v with_signature match_sender message_hash
  verify_v2v-with_signature key m sig signs made =
      let own : bytes_eq m.sender m.sender ≡ true = (bytes_eq_iff m.sender m.sender).1 refl in
      rw (signs.sized _ sig made, signs.recovers _ sig made, own) refl

  arrives :
      (now later : ℕ) (key : Bytes) (u : V2vMessage) (sig : Bytes) (service : MessageService)
      (ids : Identities)
      → now ≤ later
      → later ≤ now + 30
      → later < 2 ^ 62
      → u.timestamp ≡ pos now
      → Signs c key u.sender
      → c.sign_digest (message_hash c formats u) key ≡ some sig
      → ids.is_known u.sender ≡ true
      → ids.is_admitted u.sender ≡ true
      → has_id u.id service.id_cache ≡ false
      → Fresh (get service.sender_seqs u.sender) u.seq_num
      → (verify_received c formats ids
          (pos later)
          (with_signature c formats u sig)
          service).0.is_valid
        ≡ true
  unfolding with_signature
  arrives now later key u sig service ids before soon small stamped signs made known admitted new
        fresh =
      let m = with_signature c formats u sig in
      let in_time : is_expired (pos later) m ≡ false =
        (is_expired-Near later m small (rw stamped (omega arith))).1 (rw stamped (omega arith)) in
      elim (verify_received-Effect c formats ids (pos later) m service).outcome [
        | inl (valid, rest, seqs, ids') ↦ valid
        | inr (invalid, unfit, seqs, ids') ↦ absurd (
            unfit (record {
              new_id = new;
              in_time = in_time;
              known = known;
              admitted = admitted;
              signed = verify_v2v-with_signature key u sig signs made;
              fresh = fresh;
            }))
      ]

  -- A message that CreateMessage made with the sender's key is accepted by every service, of the sender
  -- or of another, up to 30 seconds later, if the sender is known and admitted there, the message's id
  -- is not in the cache, and its number is above the sender's last accepted one.
  pub create_message-verify_received :
      (now later kind priority : ℕ) (sender receiver : Address) (payload platoon_id key : Bytes)
      (creator service : MessageService) (ids : Identities) (m : V2vMessage)
      → now ≤ later
      → later ≤ now + 30
      → later < 2 ^ 62
      → Signs c key sender
      → (create_message c formats
          (pos now)
          kind
          priority
          sender
          receiver
          payload
          platoon_id
          key
          creator).0
        ≡ some m
      → ids.is_known sender ≡ true
      → ids.is_admitted sender ≡ true
      → has_id m.id service.id_cache ≡ false
      → Fresh (get service.sender_seqs sender) m.seq_num
      → (verify_received c formats ids (pos later) m service).0.is_valid ≡ true
  unfolding create_message sign_v2v with_signature
  create_message-verify_received now later kind priority sender receiver payload platoon_id key
        creator service ids m before soon small signs h known admitted new fresh =
      let (seq_num, creator') = get_next_seq_num sender creator in
      let u : V2vMessage = record {
        id = generate_message_id c formats sender seq_num;
        kind = kind;
        priority = priority;
        sender = sender;
        receiver = receiver;
        seq_num = seq_num;
        timestamp = pos now;
        payload = payload;
        signature = [];
        platoon_id = platoon_id;
      } in
      let (sig, made, e) =
        map_option-eq-some (with_signature c formats u)
          (c.sign_digest (message_hash c formats u) key) h in
      rw (← e) (
        arrives now later key u sig service ids before soon small refl signs made known admitted
          (subst (λ x. has_id x.id service.id_cache ≡ false) (sym e) new)
          (subst (λ x. Fresh (get service.sender_seqs sender) x.seq_num) (sym e) fresh))
