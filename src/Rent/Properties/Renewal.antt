-- ===== src/Rent/Properties/Renewal.antt =====
-- The next period of a recurring rental in `do_process_rental_periods` of pallets/rent/src/lib.rs.
use pallet_rent.Prelude.{
  ℕ, ◌≡◌, ◌⊎◌, refl, true, false, some, [], ◌∷◌, ◌++◌, is_none, leb, update, update₂,
}
use pallet_rent.Rent.Types.{
  keep_alive, moved, Config, Collectible, RentalPeriodConfig, rent_payed, rental_period_added,
  State,
}
use pallet_rent.Rent.Effects.{ok}
use pallet_rent.Rent.Helpers.{
  add_blocks, mul_balance, transfer_funds, append_pending_rental_to_available_block,
}
use pallet_rent.Rent.Helpers.Search.{HasRoom, find_block-ends}
use pallet_rent.Rent.Internal.{append_rental, renew_rental, charge_rental, process_rental}

module _ {L : Type 0} (cfg : Config L) (s : State L) (a id : ℕ) (c : Collectible)
    (r : RentalPeriodConfig) (price : ℕ) (l : L) where
  -- The storage after the renewal: the money is moved, the rental has the block `b` and is pending
  -- there, and the payment and the pending block are reported.
  abbrev pub renewed : ℕ → State L
  renewed b = record s {
    balances = l;
    lessee_collectibles =
        update₂ s.lessee_collectibles a id (some (record r { next_rent_block = b }));
    pending_rentals = update s.pending_rentals b (s.pending_rentals b ++ (id, a) ∷ []);
    events =
        (s.events
          ++ rent_payed c.lessor a id (mul_balance cfg price r.rental_periodic_interval) ∷ [])
        ++ rental_period_added id b ∷ [];
  }

  -- One round of the loop on a recurring rental of a rentable collectible with a lessee, whose price
  -- the balance covers and the currency transfers: the lessee pays the price for one more period, and
  -- the rental is pending in the block one period after the current one or, if that is full, in the
  -- block after the current one, given that one of the two has room. Nothing else changes but the
  -- rental's block and the events of the payment and of the pending block.
  pub process_rental-renewed :
      s.lessee_collectibles a id ≡ some r
      → s.collectibles id ≡ some c
      → c.rentable ≡ true
      → is_none c.lessee ≡ false
      → r.recurring ≡ true
      → c.price_per_block ≡ some price
      → leb (mul_balance cfg price r.rental_periodic_interval) (cfg.free_balance s.balances a)
        ≡ true
      → cfg.transfer s.balances a c.lessor
          (mul_balance cfg price r.rental_periodic_interval)
          keep_alive
        ≡ moved l
      → HasRoom cfg s.block_number s.pending_rentals
          (add_blocks cfg s.block_number r.rental_periodic_interval)
        ⊎ HasRoom cfg s.block_number s.pending_rentals (add_blocks cfg s.block_number 1)
      → (b : ℕ) × (process_rental cfg (id, a) s ≡ (ok tt, renewed b))
        × HasRoom cfg s.block_number s.pending_rentals b
        × ((b ≡ add_blocks cfg s.block_number r.rental_periodic_interval)
            ⊎ ((¬ HasRoom cfg s.block_number s.pending_rentals
                  (add_blocks cfg s.block_number r.rental_periodic_interval))
                × (b ≡ add_blocks cfg s.block_number 1)))
  unfolding process_rental charge_rental renew_rental append_rental transfer_funds
      append_pending_rental_to_available_block
  process_rental-renewed rented known rentable leased recurring has covered moves room =
      let (b, found, roomy, which) =
        find_block-ends cfg s.block_number s.pending_rentals
          (add_blocks cfg s.block_number r.rental_periodic_interval) room in
      (
        b,
        rw (rented, known, rentable, leased, recurring, has, covered, moves, found) refl,
        roomy,
        which,
      )
