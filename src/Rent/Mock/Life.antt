-- ===== src/Rent/Mock/Life.antt =====
-- The life of a rental under `run_to_block` of pallets/rent/src/mock.rs: from the call of `rent` to
-- the block in which it is due.
use pallet_rent.Prelude.{
  ℕ, ◌+◌, ◌<◌, ◌≤◌, ◌^◌, ◌≡◌, refl, Bool, some, [], ◌∷◌, ◌++◌, arith, update_self,
}
use pallet_rent.Rent.Types.{Config, RentalPeriodConfig, State}
use pallet_rent.Rent.Rules.{Post, Post-map}
use pallet_rent.Rent.Helpers.{add_blocks}
use pallet_rent.Rent.Helpers.Search.{find_block-where}
use native.Mathlib.Nat.{mod-eq_of_lt}
use pallet_rent.Rent.Calls.{signed, rent}
use pallet_rent.Rent.Calls.Renting.{Takes, rent-Takes}
use pallet_rent.Rent.Invariant.Occurrences.{Occurs, Occurs-append_self}

module _ {L : Type 0} (cfg : Config L) where
  add_blocks_small : (now n : ℕ) → now + n < 2 ^ cfg.block_bits → add_blocks cfg now n ≡ now + n
  add_blocks_small now n small = mod-eq_of_lt small

  -- A rental of at least one block is stored, pending in its block, and due after the current block, and at most as many blocks later
  -- as were rented, if the sum of the current block and these blocks does not wrap around.
  pub rent-due_bounds :
      (a id blocks : ℕ) (recurring : Bool) (s : State L)
      → 0 < blocks
      → s.block_number + blocks < 2 ^ cfg.block_bits
      → Post
          (λ t.
            (r : RentalPeriodConfig) × (t.lessee_collectibles a id ≡ some r)
            × (r.recurring ≡ recurring)
            × (t.block_number ≡ s.block_number)
            × Occurs id a (t.pending_rentals r.next_rent_block)
            × (s.block_number < r.next_rent_block)
            × (r.next_rent_block ≤ s.block_number + blocks))
          (rent cfg (signed a) id blocks recurring s)
  rent-due_bounds a id blocks recurring s some_blocks small =
      Post-map (Takes cfg s a id blocks recurring) _ _
        (λ t h.
          let x = h.rents in
          let r : RentalPeriodConfig = record {
            rental_periodic_interval = blocks;
            next_rent_block = x.next;
            recurring = recurring;
          } in
          let whole = add_blocks_small s.block_number blocks small in
          let one = add_blocks_small s.block_number 1 (omega (arith, small, some_blocks)) in
          let at =
            find_block-where cfg s.block_number s.pending_rentals
              (add_blocks cfg s.block_number blocks) x.next x.found in
          let after : s.block_number < x.next = ground (arith, whole, one, at) in
          let within : x.next ≤ s.block_number + blocks = ground (arith, whole, one, at) in
          rw x.left (
            r,
            ground arith,
            refl,
            refl,
            rw (update_self s.pending_rentals x.next (s.pending_rentals x.next ++ (id, a) ∷ []))
                (Occurs-append_self id a (s.pending_rentals x.next)),
            after,
            within,
          ))
        (rent-Takes cfg s a id blocks recurring)
