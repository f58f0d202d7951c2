-- ===== src/Rent/Samples/RoundTrips.antt =====
-- The theorems about calls of pallets/rent/src/lib.rs that undo each other, at concrete inputs.
use pallet_rent.Prelude.{◌≡◌, refl, none, [], ◌∷◌}
use pallet_rent.Rent.Types.{
  State, collectible_created, collectible_equipped, collectible_unequipped,
}
use pallet_rent.Rent.Effects.{ok}
use pallet_rent.Rent.Rules.{Post}
use pallet_rent.Rent.Helpers.{gen_collectible_id}
use pallet_rent.Rent.Calls.{signed, mint, burn, equip_collectible, unequip_collectible}
use pallet_rent.Rent.Properties.RoundTrips.{Restored, mint-then-burn}
use pallet_rent.Rent.Properties.RoundTrips.Equipping.{equip-then-unequip}
use pallet_rent.Rent.Samples.{Ledger, test, renting}
use pallet_rent.Rent.Samples.Examples.{renting-WellFormed}

-- The lessor mints another collectible.
mint-then-burn_example :
    let id = gen_collectible_id test renting in
    Post
      (λ t.
        (u : State Ledger) × (burn test (signed 1) id t ≡ (ok tt, u))
        × Restored renting (collectible_created id 1 none ∷ []) u)
      (mint test (signed 1) renting)
mint-then-burn_example = mint-then-burn test renting renting-WellFormed 1

-- The lessee equips what it rents.
equip-then-unequip_example :
    Post
      (λ t.
        (u : State Ledger) × (unequip_collectible test (signed 2) 7 t ≡ (ok tt, u))
        × Restored renting
            (collectible_equipped 2 7
              ∷ collectible_unequipped 2 7
              ∷ collectible_unequipped 2 7
              ∷ [])
            u)
      (equip_collectible test (signed 2) 7 renting)
equip-then-unequip_example = equip-then-unequip test renting renting-WellFormed 2 7 refl
