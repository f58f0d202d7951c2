-- ===== src/Rent/Calls/Renting.antt =====
-- What a successful `rent` and a successful `extend_rent` of pallets/rent/src/lib.rs have checked
-- and done.
use pallet_rent.Prelude.{
  ℕ, ◌≡◌, ◌≢◌, Bool, true, not, none, some, arith, leb, ◌==◌, is_none, eq_option,
}
use pallet_rent.Rent.Types.{
  Config, Collectible, State, no_collectible, rental_period_too_short, rental_period_too_long,
  cannot_rent_own_collectible, rent_not_available, already_rented,
}
use pallet_rent.Rent.Rules.{Post, Post-ok_or, Post-ensure, Post-lift, Post-map}
use pallet_rent.Rent.Helpers.{ensure_user_is_lessee}
use pallet_rent.Rent.Internal.Renting.{Rents, do_rent-Rents}
use pallet_rent.Rent.Internal.Extending.{Extends, do_extend-Extends}
use pallet_rent.Rent.Calls.{signed, rent, extend_rent, within}

module _ {L : Type 0} (cfg : Config L) (s : State L) where
  -- A rental by `a` that the guards of `rent` let through.
  pub record Takes (a id blocks : ℕ) (recurring : Bool) (v : State L) : Type 0 where
    pub collectible : Collectible
    pub known : s.collectibles id ≡ some collectible
    pub long_enough :
        within (λ minimum. leb minimum blocks) collectible.minimum_rental_period ≡ true
    pub short_enough :
        within (λ maximum. leb blocks maximum) collectible.maximum_rental_period ≡ true
    pub not_own : collectible.lessor ≢ a
    pub free : collectible.lessee ≡ none
    pub rents : Rents cfg s id a blocks recurring collectible v

  -- If `rent` by `a` succeeds, the collectible exists, is not the account's own, has no lessee, the
  -- number of blocks is within its bounds, it has a price that the balance covers, and the storage
  -- is the old one after the transfer with the account as lessee, its rental stored with the block
  -- found for it and pending in that block, and the events of the payment and of the pending block.
  pub rent-Takes :
      (a id blocks : ℕ) (recurring : Bool)
      → Post (Takes a id blocks recurring) (rent cfg (signed a) id blocks recurring s)
  unfolding rent
  rent-Takes a id blocks recurring =
      let P = Takes a id blocks recurring in
      Post-ok_or P (s.collectibles id) no_collectible _ s λ c known.
        Post-ensure P (within (λ minimum. leb minimum blocks) c.minimum_rental_period)
          rental_period_too_short _ s
          λ long.
            Post-ensure P (within (λ maximum. leb blocks maximum) c.maximum_rental_period)
              rental_period_too_long _ s
              λ short. Post-ensure P (not (c.lessor == a)) cannot_rent_own_collectible _ s λ other.
                Post-ensure P (is_none c.lessee) rent_not_available _ s λ free.
                  Post-ensure P (not (eq_option c.lessee (some a))) already_rented _ s λ fresh.
                    Post-map (Rents cfg s id a blocks recurring c) P _
                      (λ t r. record {
                        collectible = c;
                        known = known;
                        long_enough = long;
                        short_enough = short;
                        not_own = ground arith;
                        free = ground arith;
                        rents = r;
                      })
                      (do_rent-Rents cfg s id a blocks recurring c known)

  -- An extension by the lessee `a`.
  pub record Prolongs (a id blocks : ℕ) (v : State L) : Type 0 where
    pub collectible : Collectible
    pub known : s.collectibles id ≡ some collectible
    pub held : collectible.lessee ≡ some a
    pub extends : Extends cfg s collectible blocks v

  -- If `extend_rent` by `a` succeeds, `a` is the lessee, the block number of its rental plus the
  -- given blocks is at most the maximum rental period, blocks and price are below 2 ^ 32, and the
  -- storage is the old one after the transfer of their product modulo 2 ^ 32, with the entry moved
  -- from the old block to the one found for it, the rental's block replaced, and the five events.
  pub extend_rent-Prolongs :
      (a id blocks : ℕ) → Post (Prolongs a id blocks) (extend_rent cfg (signed a) id blocks s)
  unfolding extend_rent
  extend_rent-Prolongs a id blocks =
      let P = Prolongs a id blocks in
      Post-ok_or P (s.collectibles id) no_collectible _ s λ c known.
        Post-lift P (ensure_user_is_lessee a c) _ s λ u held.
          Post-map (Extends cfg s c blocks) P _
            (λ t r. record { collectible = c; known = known; held = ground arith; extends = r })
            (do_extend-Extends cfg s c blocks)
