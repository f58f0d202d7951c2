-- ===== src/Rent/Internal/Renting.antt =====
-- What a successful `do_rent_collectible` and a successful `do_extend_rent` of
-- pallets/rent/src/lib.rs have done, in one equation for the storage that they leave.
use pallet_rent.Prelude.{ℕ, ◌≤◌, ◌≡◌, Bool, none, some, [], ◌∷◌, ◌++◌, update, update₂}
use pallet_rent.Rent.Types.{
  keep_alive, moved, Config, Collectible, rent_payed, rental_period_added, State,
}
use pallet_rent.Rent.Effects.{ok, unwrap_result}
use pallet_rent.Rent.Rules.{Post, Post-continue, Post-unwrap, unwrap_result-ok}
use pallet_rent.Rent.Helpers.{
  find_block, rounds, add_blocks, mul_balance, transfer_funds,
  append_pending_rental_to_available_block,
}
use pallet_rent.Rent.Helpers.Results.{transfer_funds-ok, append-ok}
use pallet_rent.Rent.Internal.{do_rent_collectible}

module _ {L : Type 0} (cfg : Config L) (s : State L) where
  -- A rental of the collectible `c` by `a`: the price, the balances after the transfer and the block
  -- of the end of the rental, and with these the storage that is left.
  pub record Rents (id a blocks : ℕ) (recurring : Bool) (c : Collectible) (v : State L)
      : Type 0 where
    pub price : ℕ
    pub paid : L
    pub next : ℕ
    pub has_price : c.price_per_block ≡ some price
    pub covered : mul_balance cfg price blocks ≤ cfg.free_balance s.balances a
    pub transferred :
        cfg.transfer s.balances a c.lessor (mul_balance cfg price blocks) keep_alive ≡ moved paid
    pub found :
        find_block cfg rounds s.block_number s.pending_rentals
          (add_blocks cfg s.block_number blocks)
        ≡ ok next
    pub left : v ≡ record s {
      balances = paid;
      collectibles = update s.collectibles id (some (record c { lessee = some a }));
      lessee_collectibles = update₂ s.lessee_collectibles a id (
          some (record {
            rental_periodic_interval = blocks;
            next_rent_block = next;
            recurring = recurring;
          }));
      pending_rentals = update s.pending_rentals next (s.pending_rentals next ++ (id, a) ∷ []);
      events =
          (s.events ++ rent_payed c.lessor a id (mul_balance cfg price blocks) ∷ [])
          ++ rental_period_added id next ∷ [];
    }

  pub do_rent-Rents :
      (id a blocks : ℕ) (recurring : Bool) (c : Collectible)
      → s.collectibles id ≡ some c
      → Post (Rents id a blocks recurring c) (do_rent_collectible cfg id a blocks recurring s)
  unfolding do_rent_collectible
  do_rent-Rents id a blocks recurring c e = rw e (
      Post-unwrap _ c.price_per_block _ s λ price p.
        let total = mul_balance cfg price blocks in
        Post-continue _ (transfer_funds cfg a c.lessor total s) _ λ u t paid.
          let t' = record t { events = t.events ++ rent_payed c.lessor a id total ∷ [] } in
          Post-continue _
            (unwrap_result (append_pending_rental_to_available_block cfg none blocks id a t')) _
            λ b w appended.
              let (l, moves, enough, et) = transfer_funds-ok cfg a c.lessor total s t paid in
              let (found, ew) =
                append-ok cfg none blocks id a b t' w (unwrap_result-ok _ b w appended) in
              record {
                price = price;
                paid = l;
                next = b;
                has_price = p;
                covered = enough;
                transferred = moves;
                found = rw et at found;
                left = rw (ew, et);
              })
