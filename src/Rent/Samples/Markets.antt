-- ===== src/Rent/Samples/Markets.antt =====
-- The theorems about the market and pallets/rent/src/lib.rs, at concrete inputs.
use pallet_rent.Prelude.{◌≡◌, ◌⊎◌, refl, false, none, some}
use pallet_rent.Rent.Types.{Collectible, State}
use pallet_rent.Rent.Rules.{Post, state_of}
use pallet_rent.Rent.Calls.{root, signed, on_initialize}
use pallet_rent.Rent.Calls
use pallet_rent.Rent.Invariant.Leases.{lessee_of}
use pallet_rent.Rent.Chain.{Call, dispatch, Step, called}
use pallet_rent.Rent.Market.{Turns}
use pallet_rent.Rent.Market.View.{view}
use pallet_rent.Rent.Market.Calls.{Moved, dispatch-Moved}
use pallet_rent.Rent.Market.Blocks.{on_initialize-Turns}
use pallet_rent.Rent.Market.Tenure.{lessee_stays, lessor_stays}
use pallet_rent.Rent.Samples.{Ledger, test, rented, lease, renting}
use pallet_rent.Rent.Samples.Examples.{renting-Leased}

dispatch-Moved_example :
    Post (Moved test renting 2) (dispatch test (Call.set_recurring 7 false) (signed 2) renting)
dispatch-Moved_example = dispatch-Moved test renting 2 renting-Leased (Call.set_recurring 7 false)

on_initialize-Turns_example :
    Post (λ t. Turns 11 (view renting) (view t)) (on_initialize test 11 renting)
on_initialize-Turns_example = on_initialize-Turns test 11 renting renting-Leased

-- The lessor makes the rented collectible unrentable.
abbrev withdrawing : State Ledger
withdrawing = state_of (Calls.set_unrentable test (signed 1) 7 renting)

withdrawing-Step : Step test renting withdrawing
unfolding dispatch Calls.set_unrentable
withdrawing-Step = called (Call.set_unrentable 7) (signed 1) refl

lessee_stays_example : lessee_of (withdrawing.collectibles 7) ≡ some 2
unfolding withdrawing-Step
lessee_stays_example =
    lessee_stays test 7 2 rented lease withdrawing-Step tt renting-Leased refl refl refl

lessor_stays_example :
    (withdrawing.collectibles 7 ≡ none)
    ⊎ ((d : Collectible) × (withdrawing.collectibles 7 ≡ some d) × (d.lessor ≡ 1))
lessor_stays_example = lessor_stays test 7 rented renting-Leased withdrawing-Step refl
