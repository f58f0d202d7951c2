-- ===== src/Rent/Samples/Scenarios.antt =====
-- Scenarios of pallets/rent/src/tests.rs, run on the model.
use pallet_rent.Prelude.{◌≡◌, refl, false, none, some, [], ◌∷◌}
use pallet_rent.Rent.Types.{
  rent_payed, rental_period_added, rental_ended, not_lessor, not_allowed_while_rented,
  rental_period_too_short, State, no_account_found_for_collectible,
}
use pallet_rent.Rent.Effects.{module_error, Outcome, err}
use pallet_rent.Rent.Rules.{state_of}
use pallet_rent.Rent.Helpers.{find_block, append_pending_rental_to_available_block, transfer_funds}
use pallet_rent.Rent.Internal.{
  do_rent_collectible, do_extend_rent, do_process_rental_periods, process_rentals, process_rental,
}
use pallet_rent.Rent.Calls.{signed, mint, burn, rent, extend_rent, equip_collectible, on_initialize}
use pallet_rent.Rent.Samples.{Ledger, test, bare, offer, rented, lease, offering, renting}

outcome_of : {A : Type 0} → Outcome A × State Ledger → Outcome A
outcome_of (o, s) = o

-- test_mint
creation_test :
    let t = state_of (mint test (signed 1) bare) in t.lessor_collectibles 1 ≡ some (1000001 ∷ [])
unfolding mint
creation_test = refl

-- test_burn_should_fail_if_not_lessor
burn_not_lessor_test : outcome_of (burn test (signed 2) 7 offering) ≡ err (module_error not_lessor)
unfolding burn outcome_of
burn_not_lessor_test = refl

-- test_rent_non_recurring
short_term_test :
    let t = state_of (rent test (signed 2) 7 10 false offering) in
    (t.collectibles 7 ≡ some rented)
    × (t.lessee_collectibles 2 7 ≡ some lease)
    × (t.events ≡ rent_payed 1 2 7 1000 ∷ rental_period_added 7 11 ∷ [])
    × (t.balances 2 ≡ 999999000)
unfolding rent do_rent_collectible find_block append_pending_rental_to_available_block
    transfer_funds
short_term_test = (refl, refl, refl, refl)

-- test_rent_should_fail_if_rental_period_is_too_short
rent_short_test :
    outcome_of (rent test (signed 2) 7 5 false offering)
    ≡ err (module_error rental_period_too_short)
unfolding rent outcome_of
rent_short_test = refl

-- test_pending_rental_process_ending
process_test :
    let t = state_of (on_initialize test 11 (record renting { block_number = 11 })) in
    (t.collectibles 7 ≡ some offer)
    × (t.lessee_collectibles 2 7 ≡ none)
    × (t.events ≡ rental_ended 1 2 7 ∷ [])
unfolding on_initialize do_process_rental_periods process_rentals process_rental
process_test = (refl, refl, refl)

-- test_extend_rent
extend_test :
    let t = state_of (extend_rent test (signed 2) 7 3 (record renting { block_number = 5 })) in
    (t.pending_rentals 11 ≡ []) × (t.pending_rentals 14 ≡ (7, 2) ∷ [])
unfolding extend_rent do_extend_rent find_block append_pending_rental_to_available_block
    transfer_funds
extend_test = (refl, refl)

-- test_should_not_equip_rented_collectible_as_lessor
equip_test :
    outcome_of (equip_collectible test (signed 1) 7 renting)
    ≡ err (module_error not_allowed_while_rented)
unfolding equip_collectible outcome_of
equip_test = refl

-- test_should_not_equip_unrented_collectible_as_lessee
equip_unrented_test :
    outcome_of (equip_collectible test (signed 2) 7 offering)
    ≡ err (module_error no_account_found_for_collectible)
unfolding equip_collectible outcome_of
equip_unrented_test = refl
