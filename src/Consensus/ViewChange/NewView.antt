-- ===== src/Consensus/ViewChange/NewView.antt =====
-- pbft.go: what handleNewView asks for before the engine enters a view.
use v2v_blockchain.Prelude.{
  ◌≡◌, ◌⊎◌, ◌≤◌, ◌≢◌, refl, ◌∙◌, Option, none, some, inl, inr, Bool-cases, Option-cases, length,
  arith, ltb, err,
}
use v2v_blockchain.Prelude.Int.{ℤ}
use v2v_blockchain.Prelude.Eq.{bytes_eq, bytes_eq_iff}
use v2v_blockchain.Prelude.Lock.{can_lock}
use v2v_blockchain.Bytes.{Address}
use v2v_blockchain.Crypto.{Crypto}
use v2v_blockchain.Consensus.Message.{PbftMessage, NewViewPayload, Codec}
use v2v_blockchain.Consensus.ValidatorSet.{quorum, get_primary, update_view}
use v2v_blockchain.Consensus.Engine.{Engine, not_expected_primary}
use v2v_blockchain.Consensus.Handlers.{ChainCalls}
use v2v_blockchain.Consensus.ViewChange

module _ {Chain : Type 0} (c : Crypto) (codec : Codec) (calls : ChainCalls Chain) (now : ℤ) where
  clear_view_change-view :
      (e : Engine Chain) → (ViewChange.clear_view_change c codec calls now e).1.view ≡ e.view
  unfolding ViewChange.clear_view_change
  clear_view_change-view e = elim (Bool-cases (can_lock e.vc_mu)) [
    | inl unlocked ↦ rw unlocked refl
    | inr held ↦ rw held refl
  ]

  check_new_view-view :
      (m : PbftMessage) (p : NewViewPayload) (a : Option Address) (e : Engine Chain)
      → let e' = (ViewChange.check_new_view c codec calls now m p a e).1 in
        (e'.view ≡ e.view)
        ⊎ ((a ≡ some m.sender)
            × (quorum e.validators ≤ length p.view_change_proofs)
            × (e'.view
                ≡ record { number = p.new_view_number; primary_node = m.sender; timestamp = now }))
  unfolding ViewChange.check_new_view ViewChange.enter_view
  check_new_view-view m p none e = inl refl
  check_new_view-view m p (some a) e = elim (Bool-cases (bytes_eq m.sender a)) [
    | inr other ↦ inl (rw other refl)
    | inl same ↦
        let is_sender : m.sender ≡ a = (bytes_eq_iff m.sender a).0 same in
        elim (Bool-cases (ltb (length p.view_change_proofs) (quorum e.validators))) [
          | inl few ↦ inl (rw (same, few) refl)
          | inr many ↦ inr (
            rw is_sender refl,
            ground (arith, many),
            rw (same, many)
                (clear_view_change-view
                    (ViewChange.enter_view c codec calls now p.new_view_number a e)
                  ∙ rw is_sender refl),
          )
        ]
  ]

  -- A new-view message changes the engine's view only if its sender is the primary that the
  -- validator set has for the new view and it brings a quorum of proofs; the engine is then in the
  -- view that the message names, with the sender as its primary.
  pub handle_new_view-view :
      (m : PbftMessage) (e : Engine Chain)
      → let e' = (ViewChange.handle_new_view c codec calls now m e).1 in
        (e'.view ≡ e.view)
        ⊎ ((p : NewViewPayload) × (codec.decode_new_view m.payload ≡ some p)
            × (get_primary (update_view e.validators p.new_view_number) ≡ some m.sender)
            × (quorum e.validators ≤ length p.view_change_proofs)
            × (e'.view
                ≡ record { number = p.new_view_number; primary_node = m.sender; timestamp = now }))
  unfolding ViewChange.handle_new_view ViewChange.on_new_view_payload quorum update_view
  handle_new_view-view m e = elim (Option-cases (codec.decode_new_view m.payload)) [
    | inl bad ↦ inl (rw bad refl)
    | inr (p, good) ↦
        let validators = update_view e.validators p.new_view_number in
        elim (check_new_view-view m p (get_primary validators)
          (record e { validators = validators })) [
            | inl kept ↦ inl (rw good kept)
            | inr (leads, many, entered) ↦ inr (p, good, leads, many, rw good entered)
          ]
  ]

  -- A new-view message whose sender is not the primary of the view that it names is refused, but the
  -- validator set is in that view all the same, while the engine's view is the old one.
  pub handle_new_view-wrong_sender :
      (m : PbftMessage) (e : Engine Chain) (p : NewViewPayload) (a : Address)
      → codec.decode_new_view m.payload ≡ some p
      → get_primary (update_view e.validators p.new_view_number) ≡ some a
      → m.sender ≢ a
      → let (r, e') = ViewChange.handle_new_view c codec calls now m e in
        (r ≡ err not_expected_primary)
        × (e'.validators.view_number ≡ p.new_view_number)
        × (e'.view ≡ e.view)
  unfolding ViewChange.handle_new_view ViewChange.on_new_view_payload ViewChange.check_new_view
      update_view
  handle_new_view-wrong_sender m e p a decoded expected differ =
      elim (Bool-cases (bytes_eq m.sender a)) [
        | inl same ↦ absurd (differ ((bytes_eq_iff m.sender a).0 same))
        | inr other ↦ rw (decoded, expected, other) (refl, refl, refl)
      ]
