-- ===== src/Platoons/Service/Queries.antt =====
-- platoon/service.go: loading the stored platoons, and what the service answers about those it holds.
use v2v_blockchain.Prelude.{
  ℕ, Bool, Option, none, some, List, [], ◌∷◌, length, take, map, ltb, if◌then◌else◌,
}
use v2v_blockchain.Prelude.Eq.{bytes_Eq}
use v2v_blockchain.Prelude.GoMap.{get}
use v2v_blockchain.Bytes.{Bytes, Address}
use v2v_blockchain.Platoons.{Platoon, vehicles, is_active, has_member}
use v2v_blockchain.Platoons.Service.{PlatoonService, PlatoonCodec, Happening, save, entries_of}

-- for _, p := range all { if test(p) { append } }
unfoldable pub select_platoons : (Platoon → Bool) → List Platoon → List Platoon
select_platoons test [] = []
select_platoons test (p ∷ ps) =
    let rest = select_platoons test ps in if test p then p ∷ rest else rest

unfoldable pub at_most : ℕ → ℕ → ℕ
at_most limit n = if ltb limit n then limit else n

-- SelectValidatorsRandomly, for a count that is not negative: the first members, seven at most.
unfoldable pub select_validators : Platoon → ℕ → List Address
select_validators p count = take (at_most 7 (at_most (length p.members) count)) (vehicles p.members)

module _ {Db : Type 0} where
  unfoldable pub get_all_platoons : PlatoonService Db → List Platoon
  get_all_platoons s = map (λ entry. entry.1) s.platoons

  unfoldable pub get_active_platoons : PlatoonService Db → List Platoon
  get_active_platoons s = select_platoons is_active (get_all_platoons s)

  unfoldable pub get_vehicle_platoons : Address → PlatoonService Db → List Platoon
  get_vehicle_platoons v s = select_platoons (λ p. has_member p v) (get_all_platoons s)

  unfoldable pub get_platoon_history : Bytes → PlatoonService Db → List Happening
  get_platoon_history id s = entries_of (get s.history id)

  unfoldable pub load_decoded : Option Platoon → PlatoonService Db → PlatoonService Db
  load_decoded none s = s
  load_decoded (some p) s = save p.id p s

  -- loadPlatoons, for the values that the iterator yields.
  unfoldable pub load_platoons : PlatoonCodec → List Bytes → PlatoonService Db → PlatoonService Db
  load_platoons codec [] s = s
  load_platoons codec (bytes ∷ values) s =
      load_platoons codec values (load_decoded (codec.decode bytes) s)

  unfoldable pub new_platoon_service : PlatoonCodec → List Bytes → Db → PlatoonService Db
  new_platoon_service codec values db =
      load_platoons codec values
        (record { db = db; platoons = []; join_requests = []; history = []; emitted = [] })
