-- ===== src/Rent/Internal/Extending.antt =====
-- What a successful `do_extend_rent` of pallets/rent/src/lib.rs has done, in one equation for the
-- storage that it leaves.
use pallet_rent.Prelude.{
  ℕ, ◌*◌, ◌%◌, ◌≤◌, ◌<◌, ◌≡◌, not, some, List, [], ◌∷◌, ◌++◌, arith, ◌==◌, retain, update, update₂,
  leb,
}
use pallet_rent.Rent.Types.{
  keep_alive, moved, Config, Collectible, RentalPeriodConfig, rent_payed, rental_period_added,
  rental_period_removed, rental_extended, rental_period_too_long, State,
}
use pallet_rent.Rent.Effects.{ok}
use pallet_rent.Rent.Rules.{Post, Post-continue, Post-unwrap, Post-ok_or, Post-ensure, Post-lift}
use pallet_rent.Rent.Helpers.{
  u32_bound, convert_to_primitive, find_block, rounds, add_blocks, transfer_funds,
  append_pending_rental_to_available_block,
}
use pallet_rent.Rent.Helpers.Results.{transfer_funds-ok, append-ok}
use pallet_rent.Rent.Internal.{do_extend_rent}

-- The pending rentals of a block without those of a collectible.
abbrev pub without_entries : ℕ → List (ℕ × ℕ) → List (ℕ × ℕ)
without_entries id = retain (λ e. not (e.0 == id))

convert_to_primitive-ok : (n m : ℕ) → convert_to_primitive n ≡ ok m → (m ≡ n) × (n < u32_bound)
unfolding convert_to_primitive
convert_to_primitive-ok n m e = ground arith

module _ {L : Type 0} (cfg : Config L) (s : State L) where
  -- An extension of the rental of the collectible `c`: its lessee, the old configuration, the price,
  -- the balances after the transfer and the new block, and with these the storage that is left.
  pub record Extends (c : Collectible) (blocks : ℕ) (v : State L) : Type 0 where
    pub lessee : ℕ
    pub rental : RentalPeriodConfig
    pub maximum : ℕ
    pub price : ℕ
    pub paid : L
    pub next : ℕ
    pub has_lessee : c.lessee ≡ some lessee
    pub has_rental : s.lessee_collectibles lessee c.collectible_id ≡ some rental
    pub has_maximum : c.maximum_rental_period ≡ some maximum
    pub has_price : c.price_per_block ≡ some price
    pub not_too_long : add_blocks cfg blocks rental.next_rent_block ≤ maximum
    pub small_blocks : blocks < u32_bound
    pub small_price : price < u32_bound
    pub transferred :
        cfg.transfer s.balances lessee c.lessor (blocks * price % u32_bound) keep_alive ≡ moved paid
    pub covered : blocks * price % u32_bound ≤ cfg.free_balance s.balances lessee
    pub found :
        find_block cfg rounds s.block_number
          (update s.pending_rentals rental.next_rent_block
            (without_entries c.collectible_id (s.pending_rentals rental.next_rent_block)))
          (add_blocks cfg rental.next_rent_block blocks)
        ≡ ok next
    pub left :
        let id = c.collectible_id in
        let old = rental.next_rent_block in
        let kept = update s.pending_rentals old (without_entries id (s.pending_rentals old)) in
        v ≡ record s {
          balances = paid;
          lessee_collectibles =
              update₂ s.lessee_collectibles lessee id
                (some (record rental { next_rent_block = next }));
          pending_rentals = update kept next (kept next ++ (id, lessee) ∷ []);
          events =
              ((((s.events ++ rent_payed c.lessor lessee id (blocks * price % u32_bound) ∷ [])
                    ++ rental_period_removed id old ∷ [])
                  ++ rental_period_added id next ∷ [])
                ++ rental_extended c.lessor lessee id next ∷ [])
              ++ rental_period_added id next ∷ [];
        }

  pub do_extend-Extends :
      (c : Collectible) (blocks : ℕ) → Post (Extends c blocks) (do_extend_rent cfg c blocks s)
  unfolding do_extend_rent
  do_extend-Extends c blocks =
      let id = c.collectible_id in
      Post-unwrap _ c.lessee _ s λ a has_lessee.
        Post-ok_or _ (s.lessee_collectibles a id) _ _ s λ r has_rental.
          Post-unwrap _ c.maximum_rental_period _ s λ maximum has_maximum.
            Post-ensure _ (leb (add_blocks cfg blocks r.next_rent_block) maximum)
              rental_period_too_long _ s
              λ short. Post-lift _ (convert_to_primitive blocks) _ s λ n small.
                Post-unwrap _ c.price_per_block _ s λ price has_price.
                  Post-lift _ (convert_to_primitive price) _ s λ m cheap.
                    let total = n * m % u32_bound in
                    let old = r.next_rent_block in
                    Post-continue (Extends c blocks) (transfer_funds cfg a c.lessor total s) _
                      λ u t paid.
                        let t' = record t {
                          pending_rentals =
                              update t.pending_rentals old
                                (without_entries id (t.pending_rentals old));
                          events =
                              (t.events ++ rent_payed c.lessor a id total ∷ [])
                              ++ rental_period_removed id old ∷ [];
                        } in
                        Post-continue (Extends c blocks)
                          (append_pending_rental_to_available_block cfg (some old) n id a t') _
                          λ b w appended.
                            let (l, moves, enough, et) =
                              transfer_funds-ok cfg a c.lessor total s t paid in
                            let (found, ew) = append-ok cfg (some old) n id a b t' w appended in
                            let (en, bn) = convert_to_primitive-ok blocks n small in
                            let (em, bm) = convert_to_primitive-ok price m cheap in
                            record {
                              lessee = a;
                              rental = r;
                              maximum = maximum;
                              price = price;
                              paid = l;
                              next = b;
                              has_lessee = has_lessee;
                              has_rental = has_rental;
                              has_maximum = has_maximum;
                              has_price = has_price;
                              not_too_long = ground arith;
                              small_blocks = bn;
                              small_price = bm;
                              transferred = rw (← en, ← em) moves;
                              covered = rw (← en, ← em) enough;
                              found = rw (et, en) at found;
                              left = rw (ew, et, en, em);
                            }
