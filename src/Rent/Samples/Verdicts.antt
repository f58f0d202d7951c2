-- ===== src/Rent/Samples/Verdicts.antt =====
-- What the calls of pallets/rent/src/lib.rs return, on concrete storages.
use pallet_rent.Prelude.{◌≡◌, refl, false}
use pallet_rent.Rent.Types.{no_account_found_for_collectible, not_lessor, not_lessee}
use pallet_rent.Rent.Effects.{ok, err, module_error}
use pallet_rent.Rent.Calls.{signed}
use pallet_rent.Rent.Chain.{Call, dispatch}
use pallet_rent.Rent.Verdict.{without_value, verdict_of, checks}
use pallet_rent.Rent.Verdict.Calls.{dispatch-Judged}
use pallet_rent.Rent.Samples.{test, offering, renting}

-- A stranger may not equip what is on offer, and the lessee may equip what is rented.
equip_on_offer :
    verdict_of (checks test offering 3 (Call.equip_collectible 7))
    ≡ err (module_error no_account_found_for_collectible)
equip_on_offer = refl

equip_rented : verdict_of (checks test renting 2 (Call.equip_collectible 7)) ≡ ok tt
equip_rented = refl

recurring_of_another :
    verdict_of (checks test renting 3 (Call.set_recurring 7 false)) ≡ err (module_error not_lessee)
recurring_of_another = refl

dispatch-Judged_example :
    without_value (dispatch test (Call.unequip_collectible 7) (signed 3) renting).0
    ≡ err (module_error not_lessor)
dispatch-Judged_example = dispatch-Judged test renting 3 (Call.unequip_collectible 7) refl
