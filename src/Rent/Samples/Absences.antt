-- ===== src/Rent/Samples/Absences.antt =====
-- The theorem about an account that makes no call of pallets/rent/src/lib.rs, at a concrete life.
use pallet_rent.Prelude.{refl, true, arith}
use pallet_rent.Rent.Types.{State}
use pallet_rent.Rent.Rules.{state_of}
use pallet_rent.Rent.Helpers.{transfer_funds, append_pending_rental_to_available_block, find_block}
use pallet_rent.Rent.Internal.{do_rent_collectible, do_process_rental_periods, process_rentals}
use pallet_rent.Rent.Calls.{signed, on_initialize}
use pallet_rent.Rent.Calls
use pallet_rent.Rent.Chain.{Call, dispatch, called, block}
use pallet_rent.Rent.Consent.{Spares}
use pallet_rent.Rent.Consent.Absence.{Absence, left, away, Absence-Spares}
use pallet_rent.Rent.Samples.{Ledger, test, offering}
use pallet_rent.Rent.Samples.Runs.{test-CurrencyLaws}

-- Account 2 rents the collectible of account 1, again and again, and the next block begins.
abbrev taken : State Ledger
taken = state_of (Calls.rent test (signed 2) 7 10 true offering)

abbrev later : State Ledger
later = state_of (on_initialize test 2 (record taken { block_number = 2 }))

later-Absence : Absence test 1 offering later
unfolding dispatch Calls.rent on_initialize do_process_rental_periods process_rentals
    do_rent_collectible transfer_funds append_pending_rental_to_available_block find_block
later-Absence =
    away (away left (called (Call.rent 7 10 true) (signed 2) refl) (λ e. omega (arith, e)))
      (block refl) tt

Absence-Spares_example : Spares test 1 offering later
Absence-Spares_example =
    Absence-Spares test 1 test-CurrencyLaws offering later (λ id r e. absurd (cc)) later-Absence
