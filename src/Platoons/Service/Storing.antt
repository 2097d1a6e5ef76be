-- ===== src/Platoons/Service/Storing.antt =====
-- platoon/service.go: the well-formed platoons of a service, in its map and in its store.
use v2v_blockchain.Prelude.{
  ◌≡◌, ap, sym, ◌∙◌, some, [], ◌∷◌, length, if◌then◌else◌, inl, inr, Bool-cases, Option-cases,
  none-some, arith, Outcome, ok, err, panic, blocked,
}
use mathlib.Core.Path.{subst}
use v2v_blockchain.Prelude.Eq.{bytes_eq, bytes_Eq}
use v2v_blockchain.Prelude.GoMap.{get, get-put}
use v2v_blockchain.Bytes.{Bytes}
use v2v_blockchain.Chain.Storage.{Database}
use v2v_blockchain.Prelude.Distinct.{contains, Distinct}
use v2v_blockchain.Platoons.{Platoon, PlatoonError, vehicles}
use v2v_blockchain.Platoons.Members.{Numbered}
use v2v_blockchain.Platoons.WellFormed.{IsWellFormed}
use v2v_blockchain.Platoons.Service.{
  PlatoonService, PlatoonCodec, Happening, platoon_key, save, record_history, emit_event,
  write_encoded, after_store, store_platoon, noted, announced, decode_found, cache_loaded,
  find_platoon, get_platoon,
}

-- What the invariant needs to survive encoding/json, which may change a text that is not UTF-8.
pub record Agrees (p q : Platoon) : Type 0 where
  pub members : q.members ≡ p.members
  pub validators : q.validators ≡ p.validators
  pub leader_id : q.leader_id ≡ p.leader_id
  pub params : q.params.max_vehicles ≡ p.params.max_vehicles

-- The store reads what was written last under a key, and a platoon is decoded as it was encoded.
pub record StoreLaws {Db : Type 0} (d : Database Db) (codec : PlatoonCodec) : Type 0 where
  pub read_written :
      (k j v : Bytes) (db db' : Db)
      → d.write_batch ((k, v) ∷ []) db ≡ some db'
      → d.get j db' ≡ (if bytes_eq k j then some (some v) else d.get j db)
  pub read_back :
      (p q : Platoon) (b : Bytes) → codec.encode p ≡ some b → codec.decode b ≡ some q → Agrees p q

Agrees-IsWellFormed : (p q : Platoon) → Agrees p q → IsWellFormed p → IsWellFormed q
Agrees-IsWellFormed p q a h =
    let s = h.sound in
    let count : length q.members ≡ length p.members = ap length a.members in
    record {
      sound = record {
        distinct_members = subst (λ ms. Distinct (vehicles ms)) (sym a.members) s.distinct_members;
        within_limit = omega (arith, s.within_limit, count, a.params);
        limit = omega (arith, s.limit, a.params);
        numbered = subst (Numbered 0) (sym a.members) s.numbered;
        distinct_validators = subst Distinct (sym a.validators) s.distinct_validators;
        validators_are_members = λ v e.
            ap (λ ms. contains (vehicles ms) v) a.members
            ∙ s.validators_are_members v (ap (λ vs. contains vs v) (sym a.validators) ∙ e);
      };
      leader_is_member =
          ap (λ ms. contains (vehicles ms) q.leader_id) a.members
          ∙ ap (contains (vehicles p.members)) a.leader_id
          ∙ h.leader_is_member;
    }

module _ {Db : Type 0} (d : Database Db) (codec : PlatoonCodec) where
  -- Every platoon that the service holds or can load is well-formed.
  pub record HoldsWellFormed (s : PlatoonService Db) : Type 0 where
    pub held : (id : Bytes) (p : Platoon) → get s.platoons id ≡ some p → IsWellFormed p
    pub stored :
        (key : Bytes) (p : Platoon)
        → decode_found d codec (d.get key s.db) ≡ some p
        → IsWellFormed p

  pub save-HoldsWellFormed :
      (id : Bytes) (p : Platoon) (s : PlatoonService Db)
      → IsWellFormed p
      → HoldsWellFormed s
      → HoldsWellFormed (save id p s)
  unfolding save
  save-HoldsWellFormed id p s h holds = record {
    held = λ j q e. saved j q (sym (get-put s.platoons id j p) ∙ e);
    stored = holds.stored;
  }
    where
      saved :
          (j : Bytes) (q : Platoon)
          → (if bytes_eq id j then some p else get s.platoons j) ≡ some q
          → IsWellFormed q
      saved j q e = elim (Bool-cases (bytes_eq id j)) [
        | inl same ↦ let found : p ≡ q = cc (rw same at e) in subst IsWellFormed found h
        | inr other ↦ holds.held j q (rw other at e)
      ]

  -- What leaves the platoons and the store alone.
  pub HoldsWellFormed-same :
      (s t : PlatoonService Db)
      → t.platoons ≡ s.platoons
      → t.db ≡ s.db
      → HoldsWellFormed s
      → HoldsWellFormed t
  HoldsWellFormed-same s t platoons db holds = record {
    held = λ id p e. holds.held id p (ap (λ m. get m id) (sym platoons) ∙ e);
    stored =
        λ key p e. holds.stored key p (ap (λ x. decode_found d codec (d.get key x)) (sym db) ∙ e);
  }

  -- GetPlatoon finds well-formed platoons only, and keeps to them in the map.
  pub get_platoon-IsWellFormed :
      (id : Bytes) (s : PlatoonService Db)
      → HoldsWellFormed s
      → HoldsWellFormed (get_platoon d codec id s).1
        × ((p : Platoon) → (get_platoon d codec id s).0 ≡ some p → IsWellFormed p)
  unfolding get_platoon find_platoon cache_loaded
  get_platoon-IsWellFormed id s holds = elim (Option-cases (get s.platoons id)) [
    | inr (p, cached) ↦ rw cached (holds, λ q e. holds.held id q (cached ∙ e))
    | inl missing ↦
        rw missing (elim (Option-cases (decode_found d codec (d.get (platoon_key id) s.db))) [
          | inl absent ↦ rw absent (holds, λ q e. absurd (none-some e))
          | inr (p, loaded) ↦
              let h = holds.stored (platoon_key id) p loaded in
              rw loaded (
                save-HoldsWellFormed id p s h holds,
                λ q e. holds.stored (platoon_key id) q (loaded ∙ e),
              )
        ])
  ]

  module _ (laws : StoreLaws d codec) where
    written-stored :
        (p : Platoon) (b key : Bytes) (db db' : Db) (q : Platoon)
        → IsWellFormed p
        → codec.encode p ≡ some b
        → d.write_batch ((platoon_key p.id, b) ∷ []) db ≡ some db'
        → ((r : Platoon) → decode_found d codec (d.get key db) ≡ some r → IsWellFormed r)
        → decode_found d codec (d.get key db') ≡ some q
        → IsWellFormed q
    unfolding decode_found
    written-stored p b key db db' q h encoded written before e =
        let read = laws.read_written (platoon_key p.id) key b db db' written in
        elim (Bool-cases (bytes_eq (platoon_key p.id) key)) [
          | inl same ↦
              let decoded : codec.decode b ≡ some q =
                sym (ap (decode_found d codec) (rw same at read)) ∙ e in
              Agrees-IsWellFormed p q (laws.read_back p q b encoded decoded) h
          | inr other ↦ before q (sym (ap (decode_found d codec) (rw other at read)) ∙ e)
        ]

    store_platoon-HoldsWellFormed :
        (p : Platoon) (s : PlatoonService Db)
        → IsWellFormed p
        → HoldsWellFormed s
        → HoldsWellFormed (store_platoon d codec p s).1
    unfolding store_platoon after_store write_encoded
    store_platoon-HoldsWellFormed p s h holds = elim (Option-cases (codec.encode p)) [
      | inl failed ↦ rw failed holds
      | inr (b, encoded) ↦
          rw encoded (elim (Option-cases (d.write_batch ((platoon_key p.id, b) ∷ []) s.db)) [
            | inl failed ↦ rw failed holds
            | inr (db', written) ↦ rw written (record {
              held = holds.held;
              stored = λ key q e.
                  written-stored p b key s.db db' q h encoded written (holds.stored key) e;
            })
          ])
    ]

    noted-HoldsWellFormed :
        (id : Bytes) (h : Happening) (r : Outcome PlatoonError (Unit {0}) × PlatoonService Db)
        → HoldsWellFormed r.1
        → HoldsWellFormed (announced id h r).1 × HoldsWellFormed (noted id h r).1
    unfolding announced noted record_history emit_event
    noted-HoldsWellFormed id h (ok u, s) holds = (
      record { held = holds.held; stored = holds.stored },
      record { held = holds.held; stored = holds.stored },
    )
    noted-HoldsWellFormed id h (err e, s) holds = (holds, holds)
    noted-HoldsWellFormed id h (panic, s) holds = (holds, holds)
    noted-HoldsWellFormed id h (blocked, s) holds = (holds, holds)

    -- Saving a well-formed platoon and storing it, with what is noted then.
    pub stored-HoldsWellFormed :
        (id key : Bytes) (h : Happening) (p : Platoon) (s : PlatoonService Db)
        → IsWellFormed p
        → HoldsWellFormed s
        → HoldsWellFormed (announced id h (store_platoon d codec p (save key p s))).1
          × HoldsWellFormed (noted id h (store_platoon d codec p (save key p s))).1
    stored-HoldsWellFormed id key h p s good holds =
        noted-HoldsWellFormed id h (store_platoon d codec p (save key p s)) (
          store_platoon-HoldsWellFormed p (save key p s) good
            (save-HoldsWellFormed key p s good holds))
