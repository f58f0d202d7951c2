-- ===== src/Rent/Invariant/RentLeases.antt =====
-- `rent` and `extend_rent` of pallets/rent/src/lib.rs keep `Collectibles`, `LesseeCollectibles`
-- and `PendingRentals` in agreement.
use pallet_rent.Prelude.{ℕ, refl, Bool, arith}
use pallet_rent.Rent.Types.{Config, RentalPeriodConfig, State}
use pallet_rent.Rent.Rules.{Post, Post-map}
use pallet_rent.Rent.Calls.{Origin, root, signed, unsigned, rent, extend_rent}
use pallet_rent.Rent.Calls.Renting.{Takes, rent-Takes, Prolongs, extend_rent-Prolongs}
use pallet_rent.Rent.Invariant.Leases.{
  lease-IsLeased, append-IsLeased, entries-unleased, move-IsLeased,
}
use pallet_rent.Rent.Invariant.CallLeases.{Leased}

module _ {L : Type 0} (cfg : Config L) (s : State L) (inv : Leased s) where
  Takes-Leased :
      (a id blocks : ℕ) (recurring : Bool) (v : State L)
      → Takes cfg s a id blocks recurring v
      → Leased v
  Takes-Leased a id blocks recurring v h =
      let c = h.collectible in
      let r = h.rents in
      let rental : RentalPeriodConfig = record {
        rental_periodic_interval = blocks;
        next_rent_block = r.next;
        recurring = recurring;
      } in
      let lease = lease-IsLeased inv id a c rental h.known h.free (rw r.has_price refl) h.not_own in
      rw r.left (
        append-IsLeased lease r.next id a (ground arith)
          (entries-unleased inv id (rw h.known h.free) r.next))

  Prolongs-Leased : (a id blocks : ℕ) (v : State L) → Prolongs cfg s a id blocks v → Leased v
  Prolongs-Leased a id blocks v h =
      let x = h.extends in
      rw x.left (
        move-IsLeased inv h.collectible.collectible_id x.lessee x.rental
          (record x.rental { next_rent_block = x.next }) x.has_rental)

  pub rent-Leased :
      (origin : Origin) (id blocks : ℕ) (recurring : Bool)
      → Post Leased (rent cfg origin id blocks recurring s)
  unfolding rent
  rent-Leased root id blocks recurring = tt
  rent-Leased unsigned id blocks recurring = tt
  rent-Leased (signed a) id blocks recurring =
      Post-map (Takes cfg s a id blocks recurring) Leased _ (Takes-Leased a id blocks recurring)
        (rent-Takes cfg s a id blocks recurring)

  pub extend_rent-Leased :
      (origin : Origin) (id blocks : ℕ) → Post Leased (extend_rent cfg origin id blocks s)
  unfolding extend_rent
  extend_rent-Leased root id blocks = tt
  extend_rent-Leased unsigned id blocks = tt
  extend_rent-Leased (signed a) id blocks =
      Post-map (Prolongs cfg s a id blocks) Leased _ (Prolongs-Leased a id blocks)
        (extend_rent-Prolongs cfg s a id blocks)
