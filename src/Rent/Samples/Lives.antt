-- ===== src/Rent/Samples/Lives.antt =====
-- The theorems about whole runs and about errors in pallets/rent/src/lib.rs, at concrete inputs.
use pallet_rent.Prelude.{◌≤◌, ◌<◌, ◌≡◌, false, some, arith}
use pallet_rent.Rent.Types.{RentalPeriodConfig}
use pallet_rent.Rent.Rules.{Post, state_of}
use pallet_rent.Rent.Failures.{Fails}
use pallet_rent.Rent.Calls.{signed, rent}
use pallet_rent.Rent.Chain.{Call, dispatch}
use pallet_rent.Rent.Mock.{Clocked}
use pallet_rent.Rent.Mock.Life.{rent-due_bounds}
use pallet_rent.Rent.Invariant.Occurrences.{Occurs}
use pallet_rent.Rent.Properties.Atomic.{Leaves, dispatch-Leaves}
use pallet_rent.Rent.Samples.{Ledger, test, offering, renting}

rent-due_bounds_example :
    Post
      (λ t.
        (r : RentalPeriodConfig) × (t.lessee_collectibles 2 7 ≡ some r)
        × (r.recurring ≡ false)
        × (t.block_number ≡ 1)
        × Occurs 7 2 (t.pending_rentals r.next_rent_block)
        × (1 < r.next_rent_block)
        × (r.next_rent_block ≤ 11))
      (rent test (signed 2) 7 10 false offering)
rent-due_bounds_example = rent-due_bounds test 2 7 10 false offering (omega arith) (omega arith)

-- Account 2 has rented the collectible.
abbrev leased : Clocked Ledger
leased = record { chain = state_of (rent test (signed 2) 7 10 false offering); timestamp = 31000 }

dispatch-Leaves_example :
    Fails (Leaves test renting 1 (Call.burn 7)) (dispatch test (Call.burn 7) (signed 1) renting)
dispatch-Leaves_example = dispatch-Leaves test renting 1 (Call.burn 7)
