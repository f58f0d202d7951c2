-- ===== src/Rent/Schedule/Calls.antt =====
-- The calls of pallets/rent/src/lib.rs keep the schedule.
use native.Mathlib.Nat.{mod-eq_of_lt}
use pallet_rent.Prelude.{ℕ, ◌+◌, ◌^◌, ◌≤◌, ◌<◌, ◌≡◌, refl, Bool, false, some, arith, update}
use pallet_rent.Rent.Types.{Config, Collectible, RentalPeriodConfig, State, no_collectible}
use pallet_rent.Rent.Rules.{Post, Post-ok_or, Post-lift, Post-map}
use pallet_rent.Rent.Helpers.{ensure_user_is_lessee}
use pallet_rent.Rent.Calls.{signed, rent, set_recurring, extend_rent}
use pallet_rent.Rent.Calls.Renting.{Takes, rent-Takes, Prolongs, extend_rent-Prolongs}
use pallet_rent.Rent.Invariant.CallLeases.{Leased}
use pallet_rent.Rent.Chain.{Call, dispatch}
use pallet_rent.Rent.Chain.SameRentals.{SameRentals, changes_rentals, dispatch-SameRentals}
use pallet_rent.Rent.Helpers.{add_blocks}
use pallet_rent.Rent.Helpers.Search.{find_block-where}
use pallet_rent.Rent.Internal.Extending.{Extends, without_entries}
use pallet_rent.Rent.Schedule.{Scheduled}
use pallet_rent.Rent.Schedule.Changes.{put-Due, keep-Due, move-Due}
use pallet_rent.Rent.Schedule.Blocks.{find_block-later}

module _ {L : Type 0} (cfg : Config L) (longest : ℕ) (s : State L) (a : ℕ) where
  -- What is asked of a call of `a`: a rental of 1 to `longest` blocks, and no sum of block numbers that
  -- wraps around.
  abbrev pub Careful : Call → Type 0
  Careful (Call.rent id blocks recurring) =
      (0 < blocks) × (blocks ≤ longest) × (s.block_number + longest < 2 ^ cfg.block_bits)
  Careful (Call.extend_rent id blocks) =
      (r : RentalPeriodConfig)
      → s.lessee_collectibles a id ≡ some r
      → r.next_rent_block + blocks < 2 ^ cfg.block_bits
  Careful _ = Unit

  abbrev Goes : State L → Type 0
  Goes = Scheduled longest

  module _ (due : Scheduled longest s) where
    -- Calls that change no rental.
    quiet-Goes :
        (call : Call) → changes_rentals call ≡ false → Post Goes (dispatch cfg call (signed a) s)
    quiet-Goes call quiet =
        Post-map (SameRentals s) Goes (dispatch cfg call (signed a) s)
          (λ t same. rw (same.rentals, same.pending, same.number) due)
          (dispatch-SameRentals cfg s a call quiet)

    set_recurring-Goes :
        (id : ℕ) (recurring : Bool) → Post Goes (set_recurring cfg (signed a) id recurring s)
    unfolding set_recurring
    set_recurring-Goes id recurring = Post-ok_or Goes (s.collectibles id) no_collectible _ s λ c e.
        Post-lift Goes (ensure_user_is_lessee a c) _ s λ u mine.
          Post-ok_or Goes (s.lessee_collectibles a id) no_collectible _ s λ r h.
            keep-Due (s.block_number + 1) longest s.lessee_collectibles id a s.pending_rentals r
              (record r { recurring = recurring }) due h refl refl

    rent-Goes :
        (id blocks : ℕ) (recurring : Bool)
        → Careful (Call.rent id blocks recurring)
        → Post Goes (rent cfg (signed a) id blocks recurring s)
    rent-Goes id blocks recurring (some_blocks, short, small) =
        Post-map (Takes cfg s a id blocks recurring) Goes _
          (λ t h.
            let x = h.rents in
            let after =
              find_block-later cfg s.block_number blocks longest x.next s.pending_rentals
                some_blocks short small x.found in
            rw x.left (
              put-Due (s.block_number + 1) longest s.lessee_collectibles id a s.pending_rentals
                (record {
                  rental_periodic_interval = blocks;
                  next_rent_block = x.next;
                  recurring = recurring;
                })
                due (omega (arith, after)) some_blocks short))
          (rent-Takes cfg s a id blocks recurring)

    -- The lessee of a configuration is the one of the collectible.
    only_lessee :
        (id x y : ℕ) (c : Collectible) (r : RentalPeriodConfig)
        → Leased s
        → s.collectibles id ≡ some c
        → c.lessee ≡ some x
        → s.lessee_collectibles y id ≡ some r
        → x ≡ y
    only_lessee id x y c r inv known held stored =
        let rented = inv.rented y id (rw stored refl) in ground (arith, rented, known, held)

    -- The block that an extension is moved to is after the current one.
    extend_rent-later :
        (c : Collectible) (blocks : ℕ) (t : State L) (x : Extends cfg s c blocks t)
        → s.block_number < x.rental.next_rent_block
        → x.rental.next_rent_block + blocks < 2 ^ cfg.block_bits
        → s.block_number < x.next
    extend_rent-later c blocks t x ahead small =
        let old = x.rental.next_rent_block in
        let whole : add_blocks cfg old blocks ≡ old + blocks = mod-eq_of_lt small in
        let one : add_blocks cfg s.block_number 1 ≡ s.block_number + 1 =
          mod-eq_of_lt (omega (arith, ahead, small)) in
        ground (
          arith,
          whole,
          one,
          find_block-where cfg s.block_number
              (update s.pending_rentals old
                (without_entries c.collectible_id (s.pending_rentals old)))
              (add_blocks cfg old blocks) x.next x.found,
        )

    extend_rent-Goes :
        (id blocks : ℕ)
        → Leased s
        → Careful (Call.extend_rent id blocks)
        → Post Goes (extend_rent cfg (signed a) id blocks s)
    extend_rent-Goes id blocks inv small =
        Post-map (Prolongs cfg s a id blocks) Goes _
          (λ t h.
            let x = h.extends in
            let c = h.collectible in
            let keyed = (inv.fits id c h.known).keyed in
            let same : x.lessee ≡ a = ground (arith, x.has_lessee, h.held) in
            let stored : s.lessee_collectibles a id ≡ some x.rental =
              rw (same, keyed) at x.has_rental in
            let (ahead, some_blocks, short, there) = due a id x.rental stored in
            let after =
              extend_rent-later c blocks t x (omega (arith, ahead)) (small x.rental stored) in
            rw (x.left, same, keyed)
              (move-Due (s.block_number + 1) longest s.lessee_collectibles id a s.pending_rentals
                x.rental.next_rent_block (record x.rental { next_rent_block = x.next }) due
                (λ y r. only_lessee id a y c r inv h.known h.held) (omega (arith, after))
                some_blocks short))
          (extend_rent-Prolongs cfg s a id blocks)

    -- A careful call of an account keeps the schedule.
    pub dispatch-Scheduled :
        (call : Call) → Leased s → Careful call → Post Goes (dispatch cfg call (signed a) s)
    unfolding dispatch
    dispatch-Scheduled (Call.rent id b r) inv careful = rent-Goes id b r careful
    dispatch-Scheduled (Call.set_recurring id r) inv careful = set_recurring-Goes id r
    dispatch-Scheduled (Call.extend_rent id b) inv careful = extend_rent-Goes id b inv careful
    dispatch-Scheduled Call.mint inv careful = quiet-Goes Call.mint refl
    dispatch-Scheduled (Call.burn id) inv careful = quiet-Goes (Call.burn id) refl
    dispatch-Scheduled (Call.set_rentable id p m n) inv careful =
        quiet-Goes (Call.set_rentable id p m n) refl
    dispatch-Scheduled (Call.set_unrentable id) inv careful =
        quiet-Goes (Call.set_unrentable id) refl
    dispatch-Scheduled (Call.equip_collectible id) inv careful =
        quiet-Goes (Call.equip_collectible id) refl
    dispatch-Scheduled (Call.unequip_collectible id) inv careful =
        quiet-Goes (Call.unequip_collectible id) refl
