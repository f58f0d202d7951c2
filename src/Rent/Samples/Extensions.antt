-- ===== src/Rent/Samples/Extensions.antt =====
-- The theorems about `extend_rent` of pallets/rent/src/lib.rs at concrete inputs.
use pallet_rent.Prelude.{◌≡◌, refl, some, update}
use pallet_rent.Rent.Types.{Collectible, State, rental_period_too_long}
use pallet_rent.Rent.Effects.{panic}
use pallet_rent.Rent.Failures.{Fails}
use pallet_rent.Rent.Calls.{signed, extend_rent}
use pallet_rent.Rent.Properties.Extension.{Says, extend_rent-Denied}
use pallet_rent.Rent.Verdict.{without_value}
use pallet_rent.Rent.Verdict.Stages.{outcome_of, error, extend_rent_stages}
use pallet_rent.Rent.Verdict.Stages.Funds.{extend_rent-Staged}
use pallet_rent.Rent.Samples.{Ledger, test, rented, renting}
use pallet_rent.Rent.Samples.Examples.{renting-Leased}

-- The new due block, 31, is beyond the maximum of 30.
extend_rent-Denied_example :
    Fails (Says test renting 2 7 20) (extend_rent test (signed 2) 7 20 renting)
extend_rent-Denied_example = extend_rent-Denied test renting 2 7 20 renting-Leased

-- The price is 2 ^ 32.
abbrev dear : Collectible
dear = record rented { price_per_block = some 4294967296 }

abbrev dear_rental : State Ledger
dear_rental = record renting { collectibles = update renting.collectibles 7 (some dear) }

extend_rent-Staged_example :
    without_value (extend_rent test (signed 2) 7 3 dear_rental).0
    ≡ outcome_of (extend_rent_stages test dear_rental 2 7 3)
extend_rent-Staged_example = extend_rent-Staged test dear_rental 2 7 3

-- The price is no `u32`, so that the extension panics.
extend_dear : outcome_of (extend_rent_stages test dear_rental 2 7 3) ≡ panic
extend_dear = refl

extend_too_long : outcome_of (extend_rent_stages test renting 2 7 20) ≡ error rental_period_too_long
extend_too_long = refl
