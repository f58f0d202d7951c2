-- ===== src/Rent/Samples/Courses.antt =====
-- The theorem about the schedule of pallets/rent/src/lib.rs at a concrete course of the chain.
use pallet_rent.Prelude.{ℕ, refl, false, [], arith, update}
use pallet_rent.Rent.Types.{State}
use pallet_rent.Rent.Rules.{state_of}
use pallet_rent.Rent.Helpers.{
  gen_collectible_id, transfer_funds, append_pending_rental_to_available_block, find_block,
}
use pallet_rent.Rent.Internal.{do_rent_collectible, do_process_rental_periods, process_rentals}
use pallet_rent.Rent.Calls.{signed, on_initialize}
use pallet_rent.Rent.Calls
use pallet_rent.Rent.Chain.{Call, dispatch, called, block, genesis}
use pallet_rent.Rent.Schedule.{Scheduled}
use pallet_rent.Rent.Schedule.Course.{Course, start, went, genesis-Course-Scheduled}
use pallet_rent.Rent.Samples.{Ledger, test, funds}

-- Block 1 begins, account 1 mints a collectible and offers it, and account 2 rents it for 10 blocks.
abbrev begun : State Ledger
begun = record (genesis funds) { block_number = 1; pending_rentals = update (λ b. []) 1 [] }

abbrev id : ℕ
id = gen_collectible_id test begun

abbrev minted : State Ledger
minted = state_of (Calls.mint test (signed 1) begun)

abbrev offered : State Ledger
offered = state_of (Calls.set_rentable test (signed 1) id 100 10 30 minted)

abbrev leased : State Ledger
leased = state_of (Calls.rent test (signed 2) id 10 false offered)

leased-Course : Course test 30 (genesis funds) leased
unfolding dispatch Calls.mint Calls.set_rentable Calls.rent on_initialize do_process_rental_periods
    process_rentals do_rent_collectible transfer_funds append_pending_rental_to_available_block
    find_block
leased-Course =
    went
      (went (went (went start (block refl) (omega arith)) (called Call.mint (signed 1) refl) tt)
        (called (Call.set_rentable id 100 10 30) (signed 1) refl) tt)
      (called (Call.rent id 10 false) (signed 2) refl) (omega arith)

genesis-Course-Scheduled_example : Scheduled 30 leased
genesis-Course-Scheduled_example = genesis-Course-Scheduled test 30 funds leased leased-Course
