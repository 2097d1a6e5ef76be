-- ===== src/Messages/Verification.antt =====
-- message/service.go: when VerifyMessage accepts a message, and what a call changes.
use v2v_blockchain.Prelude.{
  ℕ, ◌≡◌, ◌<◌, ◌⊎◌, refl, Bool, true, false, Option, none, some, [], ◌∷◌, ◌++◌, inl, inr,
  Bool-cases, arith, leb,
}
use mathlib.Core.Path.{subst}
use v2v_blockchain.Prelude.Int.{ℤ}
use v2v_blockchain.Prelude.Eq.{bytes_Eq}
use v2v_blockchain.Prelude.GoMap.{get, put}
use v2v_blockchain.Crypto.{Crypto}
use v2v_blockchain.Messages.{V2vMessage, SignatureError, Formats, is_expired, verify_v2v}
use v2v_blockchain.Messages.Trackers.{has_id, add_id, check_and_update, update_after}
use v2v_blockchain.Messages.Service.{
  MessageService, Identities, VerifyFailure, duplicate_message, expired, unknown_sender,
  not_admitted, out_of_order, bad_signature, VerificationResult, AuditLogEntry, trim, log_audit,
  refuse, accept, check_sequence, check_signature, verify_received,
}

-- The number is above the sender's last accepted one, if there is one.
abbrev pub Fresh : Option ℕ → ℕ → Type 0
Fresh none seq_num = Unit
Fresh (some last) seq_num = last < seq_num

module _ (c : Crypto) (formats : Formats) (ids : Identities) (now : ℤ) where
  -- What the message must be for VerifyMessage to accept it.
  pub record Acceptable (m : V2vMessage) (s : MessageService) : Type 0 where
    pub new_id : has_id m.id s.id_cache ≡ false
    pub in_time : is_expired now m ≡ false
    pub known : ids.is_known m.sender ≡ true
    pub admitted : ids.is_admitted m.sender ≡ true
    pub signed : verify_v2v c formats m ≡ none
    pub fresh : Fresh (get s.sender_seqs m.sender) m.seq_num

  -- The whole effect of a call: an acceptable message is accepted and remembered; for any other, only
  -- the log changes.
  pub record Effect (m : V2vMessage) (s : MessageService) (r : VerificationResult)
      (s' : MessageService) : Type 0 where
    pub same_managers : s'.seq_managers ≡ s.seq_managers
    pub same_limit : s'.max_audit_logs ≡ s.max_audit_logs
    pub logged :
        (entry : AuditLogEntry) × (s'.audit_logs
          ≡ trim s.max_audit_logs (s.audit_logs ++ entry ∷ []))
        × (entry.message_id ≡ m.id)
        × (entry.verified ≡ r.is_valid)
        × (entry.reason ≡ r.reason)
    pub outcome :
        ((r.is_valid ≡ true)
          × Acceptable m s
          × (s'.sender_seqs ≡ put s.sender_seqs m.sender m.seq_num)
          × (s'.id_cache ≡ add_id now m.id s.id_cache))
        ⊎ ((r.is_valid ≡ false)
            × (Acceptable m s → ⊥)
            × (s'.sender_seqs ≡ s.sender_seqs)
            × (s'.id_cache ≡ s.id_cache))

  refuse-Effect :
      (sender_known not_expired : Bool) (reason : VerifyFailure) (m : V2vMessage)
      (s : MessageService)
      → (Acceptable m s → ⊥)
      → let (r, s') = refuse c formats ids now sender_known not_expired reason m s in
        Effect m s r s'
  unfolding refuse log_audit
  refuse-Effect sender_known not_expired reason m s unfit = record {
    same_managers = refl;
    same_limit = refl;
    logged = (_, refl, refl, refl, refl);
    outcome = inr (refl, unfit, refl, refl);
  }

  check_sequence-Effect :
      (m : V2vMessage) (s : MessageService) (last : Option ℕ)
      → get s.sender_seqs m.sender ≡ last
      → (Fresh last m.seq_num → Acceptable m s)
      → let (r, s') =
          check_sequence c formats ids now m
            (update_after last m.sender m.seq_num s.sender_seqs)
            s in
        Effect m s r s'
  unfolding check_sequence update_after accept log_audit
  check_sequence-Effect m s none found ready = record {
    same_managers = refl;
    same_limit = refl;
    logged = (_, refl, refl, refl, refl);
    outcome = inl (refl, ready tt, refl, refl);
  }
  check_sequence-Effect m s (some last) found ready = elim (Bool-cases (leb m.seq_num last)) [
    | inl old ↦ rw old (
        refuse-Effect true true out_of_order m s
          (λ a. absurd (stale (subst (λ o. Fresh o m.seq_num) found a.fresh) old)))
    | inr new ↦ rw new (record {
      same_managers = refl;
      same_limit = refl;
      logged = (_, refl, refl, refl, refl);
      outcome = inl (refl, ready (ground (arith, new)), refl, refl);
    })
  ]
    where
      stale : last < m.seq_num → leb m.seq_num last ≡ true → ⊥
      stale h old = ground arith

  check_signature-Effect :
      (m : V2vMessage) (s : MessageService) (error : Option SignatureError)
      → verify_v2v c formats m ≡ error
      → (error ≡ none → Fresh (get s.sender_seqs m.sender) m.seq_num → Acceptable m s)
      → let (r, s') = check_signature c formats ids now m error s in Effect m s r s'
  unfolding check_signature check_and_update
  check_signature-Effect m s none signed ready =
      check_sequence-Effect m s (get s.sender_seqs m.sender) refl (ready refl)
  check_signature-Effect m s (some e) signed ready =
      refuse-Effect true true (bad_signature e) m s (λ a. cc (signed, a.signed))

  -- VerifyMessage accepts exactly the acceptable messages: those with a new id, within the time window,
  -- from a known and admitted sender, with a good signature and a number above the sender's last
  -- accepted one. An accepted message's id and number are remembered, a refused message leaves the
  -- cache and the numbers as they were, and no call changes the senders' own counters. Every call
  -- appends one entry with its verdict to the log, which is then trimmed.
  pub verify_received-Effect :
      (m : V2vMessage) (s : MessageService)
      → Effect m s
          (verify_received c formats ids now m s).0
          (verify_received c formats ids now m s).1
  unfolding verify_received
  verify_received-Effect m s = elim (Bool-cases (has_id m.id s.id_cache)) [
    | inl seen ↦
        rw seen (refuse-Effect false false duplicate_message m s (λ a. cc (seen, a.new_id)))
    | inr new ↦ elim (Bool-cases (is_expired now m)) [
      | inl late ↦
          rw (new, late) (refuse-Effect false false expired m s (λ a. cc (late, a.in_time)))
      | inr in_time ↦ elim (Bool-cases (ids.is_known m.sender)) [
        | inr stranger ↦
            rw (new, in_time, stranger)
              (refuse-Effect false true unknown_sender m s (λ a. cc (stranger, a.known)))
        | inl known ↦ elim (Bool-cases (ids.is_admitted m.sender)) [
          | inr barred ↦
              rw (new, in_time, known, barred)
                (refuse-Effect true true not_admitted m s (λ a. cc (barred, a.admitted)))
          | inl admitted ↦
              rw (new, in_time, known, admitted)
                (check_signature-Effect m s (verify_v2v c formats m) refl (λ signed fresh. record {
                  new_id = new;
                  in_time = in_time;
                  known = known;
                  admitted = admitted;
                  signed = signed;
                  fresh = fresh;
                }))
        ]
      ]
    ]
  ]
