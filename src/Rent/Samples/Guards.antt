-- ===== src/Rent/Samples/Guards.antt =====
-- The theorems about success, outcomes, ends, renewals and authority in pallets/rent/src/lib.rs, at
-- concrete inputs.
use pallet_rent.Prelude.{
  ℕ, ◌+◌, ◌-◌, ◌≡◌, ◌⊎◌, inl, refl, true, false, some, [], arith, update, update₂,
}
use pallet_rent.Rent.Types.{RentalPeriodConfig, State}
use pallet_rent.Rent.Effects.{ok, panic}
use pallet_rent.Rent.Rules.{Post}
use pallet_rent.Rent.Internal.{minted, process_rental}
use pallet_rent.Rent.Calls.{signed}
use pallet_rent.Rent.Calls
use pallet_rent.Rent.Chain.{Call, dispatch}
use pallet_rent.Rent.Helpers.{gen_collectible_id}
use pallet_rent.Rent.Properties.Unpriced.{mint-then-rent}
use pallet_rent.Rent.Verdict.{without_value}
use pallet_rent.Rent.Verdict.Stages.{outcome_of, rent_stages}
use pallet_rent.Rent.Verdict.Stages.Funds.{rent-Staged}
use pallet_rent.Rent.Properties.Authority.{Spared, dispatch-Spared}
use pallet_rent.Rent.Invariant.ProcessKept.{WellFormed}
use pallet_rent.Rent.Properties.Halting.{on_initialize-returns}
use pallet_rent.Rent.Samples.Examples.{renting-WellFormed}
use pallet_rent.Rent.Helpers.Search.{HasRoom}
use pallet_rent.Rent.Properties.Renewal.{renewed, process_rental-renewed}
use pallet_rent.Rent.Samples.{rented, lease, Ledger, test, funds, bare, offer, offering, renting}

-- A collectible that was minted and never offered.
abbrev unoffered : State Ledger
unoffered = record bare { collectibles = update bare.collectibles 7 (some (minted 7 1)) }

rent-Staged_example :
    without_value (Calls.rent test (signed 2) 7 10 false unoffered).0
    ≡ outcome_of (rent_stages test unoffered 2 7 10)
rent-Staged_example = rent-Staged test unoffered 2 7 10 false

mint-then-rent_example :
    Post
      (λ t.
        without_value (Calls.rent test (signed 2) (gen_collectible_id test bare) 10 true t).0
        ≡ panic)
      (Calls.mint test (signed 1) bare)
mint-then-rent_example = mint-then-rent test 1 2 (λ e. omega (arith, e)) 10 true bare

-- It has no price, so that renting it panics.
rent_unoffered : outcome_of (rent_stages test unoffered 2 7 10) ≡ panic
rent_unoffered = refl

rent_offer : outcome_of (rent_stages test offering 2 7 10) ≡ ok tt
rent_offer = refl

dispatch-Spared_example :
    Post
      (Spared test offering 3 7 offer refl (λ e. omega (arith, e)))
      (dispatch test (Call.rent 7 10 false) (signed 3) offering)
dispatch-Spared_example =
    dispatch-Spared test offering 3 7 offer refl (λ e. omega (arith, e)) (Call.rent 7 10 false)

on_initialize-returns_example :
    (t : State Ledger) × (Calls.on_initialize test 11 renting ≡ (ok tt, t))
    × WellFormed test t
    × (t.pending_rentals 11 ≡ [])
on_initialize-returns_example =
    on_initialize-returns test 11 renting renting-WellFormed (omega arith)

-- The rental of account 2 is recurring, and its block begins.
abbrev recurring_lease : RentalPeriodConfig
recurring_lease = record lease { recurring = true }

abbrev due : State Ledger
due = record renting {
  block_number = 11;
  lessee_collectibles = update₂ bare.lessee_collectibles 2 7 (some recurring_lease);
}

abbrev payed : Ledger
payed = update (update funds 2 (funds 2 - 1000)) 1 (funds 1 + 1000)

process_rental-renewed_example :
    (b : ℕ) × (process_rental test (7, 2) due
      ≡ (ok tt, renewed test due 2 7 rented recurring_lease 100 payed b))
    × HasRoom test 11 due.pending_rentals b
    × ((b ≡ 21) ⊎ ((¬ HasRoom test 11 due.pending_rentals 21) × (b ≡ 12)))
process_rental-renewed_example =
    process_rental-renewed test due 2 7 rented recurring_lease 100 payed refl refl refl refl refl
      refl refl refl (inl (omega arith))
