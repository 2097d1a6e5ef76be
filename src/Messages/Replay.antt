-- ===== src/Messages/Replay.antt =====
-- message/service.go: the messages that a service accepts over time.
use v2v_blockchain.Prelude.{
  ℕ, ◌≡◌, ◌<◌, sym, ◌∙◌, Bool, true, false, Option, none, some, List, [], ◌∷◌, inl, inr, Bool-cases,
  All, ◌≤◌, ◌-◌, ◌++◌, ltb, false-true, length, length-drop, arith, if◌then◌else◌,
}
use mathlib.Core.Path.{subst}
use v2v_blockchain.Prelude.Int.{ℤ}
use v2v_blockchain.Prelude.Eq.{bytes_eq, bytes_eq_iff, bytes_Eq}
use v2v_blockchain.Prelude.GoMap.{get, put, get-put}
use v2v_blockchain.Crypto.{Crypto}
use v2v_blockchain.Messages.{V2vMessage, Formats}
use v2v_blockchain.Messages.Trackers.{SenderSeqTracker}
use v2v_blockchain.Messages.Service.{
  MessageService, Identities, AuditLogEntry, trim, verify_received, run_cleanup,
}
use v2v_blockchain.Messages.Verification.{Fresh, verify_received-Effect}

-- One call of the service: VerifyMessage, at a time and with what the identity service answers then,
-- or a round of the cleanup loop.
pub data Call : Type 0 where
  verify : ℤ → Identities → V2vMessage → Call
  clean : ℤ → Call

-- The accepted messages, oldest first, and the service afterwards.
unfoldable pub keep_valid : V2vMessage → Bool → List V2vMessage → List V2vMessage
keep_valid m true accepted = m ∷ accepted
keep_valid m false accepted = accepted

-- The later message has a greater number if it is from the same sender.
abbrev pub Follows : V2vMessage → V2vMessage → Type 0
Follows m later = later.sender ≡ m.sender → m.seq_num < later.seq_num

abbrev pub Increasing : List V2vMessage → Type 0
Increasing [] = Unit
Increasing (m ∷ later) = All (Follows m) later × Increasing later

abbrev FreshAfter : SenderSeqTracker → V2vMessage → Type 0
FreshAfter t m = Fresh (get t m.sender) m.seq_num

Fresh-lt : (last : Option ℕ) {a b : ℕ} → Fresh last a → a < b → Fresh last b
Fresh-lt none h l = tt
Fresh-lt (some last) h l = omega (arith, h, l)

length-trim : (limit : ℕ) (logs : List AuditLogEntry) → length (trim limit logs) ≤ limit
unfolding trim
length-trim limit logs = elim (Bool-cases (ltb limit (length logs))) [
  | inl long ↦ rw long (ground (arith, length-drop (length logs - limit) logs, long))
  | inr short ↦ rw short (ground (arith, short))
]

module _ (c : Crypto) (formats : Formats) where
  unfoldable pub serve : List Call → MessageService → List V2vMessage × MessageService
  serve [] s = ([], s)
  serve (clean now ∷ calls) s = serve calls (run_cleanup now s)
  serve (verify now ids m ∷ calls) s =
      let (r, s') = verify_received c formats ids now m s in
      let (accepted, s'') = serve calls s' in (keep_valid m r.is_valid accepted, s'')

  -- A message that is fresh after an accepted one follows it, and was fresh before it.
  fresh_put :
      (t : SenderSeqTracker) (m x : V2vMessage)
      → FreshAfter t m
      → FreshAfter (put t m.sender m.seq_num) x
      → Follows m x × FreshAfter t x
  fresh_put t m x before after =
      let read : Fresh (if bytes_eq m.sender x.sender then some m.seq_num else get t x.sender)
          x.seq_num =
        subst (λ o. Fresh o x.seq_num) (get-put t m.sender x.sender m.seq_num) after in
      elim (Bool-cases (bytes_eq m.sender x.sender)) [
        | inl same ↦
            let larger : m.seq_num < x.seq_num = rw same at read in
            let sender : m.sender ≡ x.sender = (bytes_eq_iff m.sender x.sender).0 same in
            (
              λ e. larger,
              Fresh-lt (get t x.sender) (subst (λ a. Fresh (get t a) m.seq_num) sender before)
                  larger,
            )
        | inr other ↦ (
          λ e. absurd (false-true (sym other ∙ (bytes_eq_iff m.sender x.sender).1 (sym e))),
          rw other at read,
        )
      ]

  All-fresh_put :
      (t : SenderSeqTracker) (m : V2vMessage) (xs : List V2vMessage)
      → FreshAfter t m
      → All (FreshAfter (put t m.sender m.seq_num)) xs
      → All (Follows m) xs × All (FreshAfter t) xs
  All-fresh_put t m [] before after = (tt, tt)
  All-fresh_put t m (x ∷ xs) before (first, rest) =
      let (follows, fresh) = fresh_put t m x before first in
      let (all_follow, all_fresh) = All-fresh_put t m xs before rest in
      ((follows, all_follow), (fresh, all_fresh))

  serve_fresh :
      (calls : List Call) (s : MessageService)
      → All (FreshAfter s.sender_seqs) (serve calls s).0 × Increasing (serve calls s).0
  unfolding serve run_cleanup keep_valid
  serve_fresh [] s = (tt, tt)
  serve_fresh (clean now ∷ calls) s = serve_fresh calls (run_cleanup now s)
  serve_fresh (verify now ids m ∷ calls) s =
      let (r, s') = verify_received c formats ids now m s in
      let effect = verify_received-Effect c formats ids now m s in
      let (fresh, increasing) = serve_fresh calls s' in
      elim effect.outcome [
        | inl (valid, acceptable, seqs, cached) ↦
            let (follow, before) =
              All-fresh_put s.sender_seqs m (serve calls s').0 acceptable.fresh
                (subst (λ t. All (FreshAfter t) (serve calls s').0) seqs fresh) in
            rw valid ((acceptable.fresh, before), (follow, increasing))
        | inr (invalid, unfit, seqs, cached) ↦
            rw invalid (subst (λ t. All (FreshAfter t) (serve calls s').0) seqs fresh, increasing)
      ]

  -- Over any calls, whatever messages arrive, whatever the identity service answers and however the
  -- cache is cleaned in between, the messages that a service accepts from one sender have strictly
  -- increasing sequence numbers: none is accepted again, and none after a later one.
  pub serve-Increasing : (calls : List Call) (s : MessageService) → Increasing (serve calls s).0
  serve-Increasing calls s = (serve_fresh calls s).1

  -- However many calls are made, the audit log never holds more entries than its limit.
  pub serve-audit_logs :
      (calls : List Call) (s : MessageService)
      → length s.audit_logs ≤ s.max_audit_logs
      → length (serve calls s).1.audit_logs ≤ s.max_audit_logs
  unfolding serve run_cleanup
  serve-audit_logs [] s h = h
  serve-audit_logs (clean now ∷ calls) s h = serve-audit_logs calls (run_cleanup now s) h
  serve-audit_logs (verify now ids m ∷ calls) s h =
      let s' = (verify_received c formats ids now m s).1 in
      let effect = verify_received-Effect c formats ids now m s in
      let (entry, logs, same_id, same_verdict, same_reason) = effect.logged in
      let kept : length s'.audit_logs ≤ s'.max_audit_logs =
        rw (logs, effect.same_limit) (length-trim s.max_audit_logs (s.audit_logs ++ entry ∷ [])) in
      subst (λ n. length (serve calls s').1.audit_logs ≤ n) effect.same_limit
        (serve-audit_logs calls s' kept)
