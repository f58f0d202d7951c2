-- ===== src/Rent/Internal.antt =====
-- The internal functions of pallets/rent/src/lib.rs: `do_mint`, `do_rent_collectible`,
-- `do_extend_rent` and `do_process_rental_periods`.
pub mod Renting
pub mod Extending
use pallet_rent.Prelude.{
  ℕ, ◌+◌, ◌*◌, ◌%◌, Bool, false, not, ◌||◌, Option, none, some, List, [], ◌∷◌, ◌++◌, if◌then◌else◌,
  ltb, leb, ◌==◌, is_none, get_or, length, retain, update, update₂,
}
use pallet_rent.Rent.Types.{
  Config, Collectible, RentalPeriodConfig, Event, collectible_created, rent_payed,
  rental_period_added, rental_period_removed, rental_ended, error_transfering_rent, rental_extended,
  duplicate_collectible, no_collectible, too_many_collectibles_owned, rental_period_too_long,
}
use pallet_rent.Rent.Effects.{
  Outcome, M, pure, lift, unwrap, unwrap_result, attempt, ok_or, ensure, gets, modify,
  deposit_event, when, ◌>>=◌, ◌>>◌,
}
use pallet_rent.Rent.Helpers.{
  u32_bound, convert_to_primitive, fetch_collectible, remove_lessee_from_collectible, add_blocks,
  mul_balance, append_pending_rental_to_available_block, transfer_funds,
}

-- The collectible that `do_mint` stores.
abbrev pub minted : ℕ → ℕ → Collectible
minted id lessor = record {
  collectible_id = id;
  price_per_block = none;
  lessor = lessor;
  lessee = none;
  rentable = false;
  minimum_rental_period = none;
  maximum_rental_period = none;
}

module _ {L : Type 0} (cfg : Config L) where
  -- `BoundedVec::try_push` on a list of collectibles with the bound `MaximumOwned`.
  abbrev pub try_push : List ℕ → ℕ → Option (List ℕ)
  try_push ids id = if ltb (length ids) cfg.maximum_owned then some (ids ++ id ∷ []) else none

  -- `do_mint`
  unfoldable pub do_mint : ℕ → ℕ → M L ℕ
  do_mint lessor id = do
    let collectible = minted id lessor
    known ← gets λ s. s.collectibles id
    ensure (is_none known) duplicate_collectible
    modify λ s. record s { collectibles = update s.collectibles id (some collectible) }
    owned ← gets λ s. get_or (s.lessor_collectibles lessor) []
    owned ← ok_or (try_push owned id) too_many_collectibles_owned
    modify λ s. record s { lessor_collectibles = update s.lessor_collectibles lessor (some owned) }
    deposit_event (collectible_created id lessor none)
    pure id

  -- `do_rent_collectible`
  unfoldable pub do_rent_collectible : ℕ → ℕ → ℕ → Bool → M L (Unit {0})
  unfolding fetch_collectible
  do_rent_collectible id lessee interval recurring = do
    collectible ← fetch_collectible id
    price ← unwrap collectible.price_per_block
    let total_rent_price = mul_balance cfg price interval
    transfer_funds cfg lessee collectible.lessor total_rent_price
    deposit_event (rent_payed collectible.lessor lessee id total_rent_price)
    next ←
        λ s. unwrap_result (append_pending_rental_to_available_block cfg none interval id lessee s)
    let rental_config : RentalPeriodConfig = record {
      rental_periodic_interval = interval;
      next_rent_block = next;
      recurring = recurring;
    }
    modify λ s. record s {
      lessee_collectibles = update₂ s.lessee_collectibles lessee id (some rental_config);
    }
    modify λ s. record s {
      collectibles = update s.collectibles id (some (record collectible { lessee = some lessee }));
    }

  -- `do_extend_rent`. The product of the two `u32` wraps around.
  unfoldable pub do_extend_rent : Collectible → ℕ → M L (Unit {0})
  unfolding convert_to_primitive
  do_extend_rent collectible blocks = do
    let id = collectible.collectible_id
    lessee ← unwrap collectible.lessee
    rental ← gets λ s. s.lessee_collectibles lessee id
    rental ← ok_or rental no_collectible
    maximum ← unwrap collectible.maximum_rental_period
    ensure (leb (add_blocks cfg blocks rental.next_rent_block) maximum) rental_period_too_long
    blocks_u32 ← lift (convert_to_primitive blocks)
    price ← unwrap collectible.price_per_block
    price_u32 ← lift (convert_to_primitive price)
    let total_rent_price = (blocks_u32 * price_u32) % u32_bound
    transfer_funds cfg lessee collectible.lessor total_rent_price
    deposit_event (rent_payed collectible.lessor lessee id total_rent_price)
    let old = rental.next_rent_block
    modify λ s. record s {
      pending_rentals =
          update s.pending_rentals old (retain (λ e. not (e.0 == id)) (s.pending_rentals old));
    }
    deposit_event (rental_period_removed id old)
    next ← append_pending_rental_to_available_block cfg (some old) blocks_u32 id lessee
    modify λ s. record s {
      lessee_collectibles =
          update₂ s.lessee_collectibles lessee id (some (record rental { next_rent_block = next }));
    }
    deposit_event (rental_extended collectible.lessor lessee id next)
    deposit_event (rental_period_added id next)

  -- The end of a rental in `do_process_rental_periods`, reported by the given event.
  abbrev pub end_rental : (ℕ → ℕ → ℕ → Event) → ℕ → ℕ → Collectible → M L (Unit {0})
  end_rental report lessee id collectible = do
    freed ← λ s. unwrap_result (remove_lessee_from_collectible lessee collectible s)
    deposit_event (report freed.lessor lessee id)

  -- The next period of a recurring rental.
  unfoldable pub append_rental : ℕ → ℕ → RentalPeriodConfig → M L (Unit {0})
  append_rental lessee id rental = do
    next ← λ s. unwrap_result (
        append_pending_rental_to_available_block cfg none rental.rental_periodic_interval id lessee
          s)
    modify λ s. record s {
      lessee_collectibles =
          update₂ s.lessee_collectibles lessee id (some (record rental { next_rent_block = next }));
    }

  -- What follows a payment in `do_process_rental_periods`.
  unfoldable pub renew_rental : ℕ → ℕ → Collectible → RentalPeriodConfig → ℕ → M L (Unit {0})
  renew_rental lessee id collectible rental total_rent_price = do
    deposit_event (rent_payed collectible.lessor lessee id total_rent_price)
    when rental.recurring (append_rental lessee id rental)

  -- The payment for the next period in `do_process_rental_periods`, and the end of the rental where
  -- the payment fails.
  unfoldable pub charge_rental : ℕ → ℕ → Collectible → RentalPeriodConfig → M L (Unit {0})
  unfolding remove_lessee_from_collectible
  charge_rental lessee id collectible rental = do
    price ← unwrap collectible.price_per_block
    let total_rent_price = mul_balance cfg price rental.rental_periodic_interval
    payed ← λ s. attempt (transfer_funds cfg lessee collectible.lessor total_rent_price s)
    if payed
        then renew_rental lessee id collectible rental total_rent_price
        else end_rental error_transfering_rent lessee id collectible

  -- The body of the `for` loop of `do_process_rental_periods`.
  unfoldable pub process_rental : ℕ × ℕ → M L (Unit {0})
  unfolding remove_lessee_from_collectible
  process_rental (id, lessee) = do
    rental ← gets λ s. s.lessee_collectibles lessee id
    rental ← unwrap rental
    collectible ← gets λ s. s.collectibles id
    collectible ← unwrap collectible
    if not collectible.rentable || is_none collectible.lessee || not rental.recurring
        then end_rental rental_ended lessee id collectible
        else charge_rental lessee id collectible rental

  -- The `for` loop of `do_process_rental_periods`.
  unfoldable pub process_rentals : List (ℕ × ℕ) → M L (Unit {0})
  process_rentals [] = pure tt
  process_rentals (rental ∷ rentals) = process_rental rental >> process_rentals rentals

  -- `do_process_rental_periods`
  unfoldable pub do_process_rental_periods : ℕ → M L (Unit {0})
  do_process_rental_periods n = do
    rentals ← gets λ s. s.pending_rentals n
    process_rentals rentals
    modify λ s. record s { pending_rentals = update s.pending_rentals n [] }
