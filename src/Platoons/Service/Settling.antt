-- ===== src/Platoons/Service/Settling.antt =====
-- platoon/service.go: saving and storing a platoon and announcing it, as CreatePlatoon,
-- ProcessJoinRequest and LeavePlatoon do.
use v2v_blockchain.Prelude.{
  ◌≡◌, refl, none, some, [], Outcome, ok, err, ◌⊎◌, inl, inr, Option-cases,
}
use v2v_blockchain.Prelude.Int.{ℤ}
use v2v_blockchain.Bytes.{Bytes, Address}
use v2v_blockchain.Chain.Storage.{Database}
use v2v_blockchain.Platoons.{Platoon, PlatoonError, store_failed}
use v2v_blockchain.Platoons.Service.{
  PlatoonService, PlatoonCodec, Happening, EventType, save, store_platoon, after_store,
  write_encoded, announced, record_history, emit_event,
}

-- What happened to a vehicle of a platoon, with nothing more to say.
abbrev pub of_vehicle : EventType → Bytes → Address → ℤ → Happening
of_vehicle kind id v now = record {
  kind = kind;
  platoon_id = id;
  vehicle_id = some v;
  timestamp = now;
  values = [];
}

module _ {Db : Type 0} (d : Database Db) (codec : PlatoonCodec) where
  -- The platoon is saved in the map under a key. If encoding and writing it succeed, it is in the
  -- store, and the happening is in the history of its id and with the handlers; else the call fails
  -- for that, and the map alone has changed.
  abbrev pub Settles :
      Bytes
      → Bytes
      → Happening
      → Platoon
      → PlatoonService Db
      → Outcome PlatoonError (Unit {0}) × PlatoonService Db
      → Type 0
  Settles key id h q s r =
      ((db : Db) × (write_encoded d codec q (codec.encode q) s.db ≡ some db)
        × (r ≡ (ok tt, emit_event h (record_history id h (record (save key q s) { db = db })))))
      ⊎ ((write_encoded d codec q (codec.encode q) s.db ≡ none)
          × (r ≡ (err store_failed, save key q s)))

  pub announced-Settles :
      (key id : Bytes) (h : Happening) (q : Platoon) (s : PlatoonService Db)
      → Settles key id h q s (announced id h (store_platoon d codec q (save key q s)))
  unfolding announced store_platoon after_store save
  announced-Settles key id h q s =
      elim (Option-cases (write_encoded d codec q (codec.encode q) s.db)) [
        | inl failed ↦ inr (failed, rw failed refl)
        | inr (db, written) ↦ inl (db, written, rw written refl)
      ]

  pub Settles-announced :
      (key id : Bytes) (h : Happening) (q : Platoon) (s : PlatoonService Db)
      (r : Outcome PlatoonError (Unit {0}) × PlatoonService Db)
      → Settles key id h q s r
      → r ≡ announced id h (store_platoon d codec q (save key q s))
  unfolding announced store_platoon after_store save
  Settles-announced key id h q s r (inl (db, written, e)) = rw written e
  Settles-announced key id h q s r (inr (failed, e)) = rw failed e
