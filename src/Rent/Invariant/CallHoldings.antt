-- ===== src/Rent/Invariant/CallHoldings.antt =====
-- The calls of pallets/rent/src/lib.rs keep `LessorCollectibles`, `RentableCollectibles` and
-- `AccountEquips` in agreement with `Collectibles`.
use pallet_rent.Prelude.{
  ℕ, ◌≡◌, refl, Bool, true, false, none, some, inl, inr, arith, Option-cases, List, [], ◌∷◌, ◌++◌,
  is_none, leb, update, without, get_or,
}
use pallet_rent.Rent.Types.{
  Config, State, no_collectible, not_allowed_while_rented, minimum_must_be_less_than_maximum,
  too_many_collectibles, rent_made_available,
}
use pallet_rent.Rent.Effects.{deposit_event}
use pallet_rent.Rent.Rules.{Post, Post-map, Post-ok_or, Post-lift, Post-ensure}
use pallet_rent.Rent.Helpers.{gen_collectible_id, ensure_user_is_lessor}
use pallet_rent.Rent.Helpers.Results.{Post-unequip, Post-unequip_then}
use pallet_rent.Rent.Internal.{minted, try_push}
use pallet_rent.Rent.Calls.{
  Origin, root, signed, unsigned, mint, burn, set_rentable, rent, set_unrentable, set_recurring,
  extend_rent, equip_collectible, unequip_collectible,
}
use pallet_rent.Rent.Calls.Renting.{Takes, rent-Takes, Prolongs, extend_rent-Prolongs}
use pallet_rent.Rent.Invariant.Holdings.{
  IsOwned, IsListed, IsEntitled, put-IsOwned, mint-IsOwned, burn-IsOwned, put-IsEntitled,
  equip-IsEntitled, unequip-IsEntitled, lose-IsEntitled, put-IsListed, offer-IsListed,
  withdraw-IsListed,
}

pub record Held {L : Type 0} (s : State L) : Type 0 where
  pub owned : IsOwned s.collectibles s.lessor_collectibles
  pub listed : IsListed s.collectibles s.rentable_collectibles
  pub entitled : IsEntitled s.collectibles s.account_equips

try_push-ok :
    {L : Type 0} (cfg : Config L) (ids : List ℕ) (id : ℕ) (new : List ℕ)
    → try_push cfg ids id ≡ some new
    → new ≡ ids ++ id ∷ []
try_push-ok cfg ids id new e = ground arith

module _ {L : Type 0} (cfg : Config L) (s : State L) (inv : Held s) where
  pub mint-Held : (origin : Origin) → Post Held (mint cfg origin s)
  unfolding mint
  mint-Held root = tt
  mint-Held unsigned = tt
  mint-Held (signed a) =
      let id = gen_collectible_id cfg s in
      let c = minted id a in
      ground (
        arith,
        mint-IsOwned inv.owned id a c,
        put-IsListed inv.listed id (some c) (λ h. cc),
        put-IsEntitled inv.entitled id (some c),
      )

  pub burn-Held : (origin : Origin) (id : ℕ) → Post Held (burn cfg origin id s)
  unfolding burn
  burn-Held root id = tt
  burn-Held unsigned id = tt
  burn-Held (signed a) id = Post-ok_or Held (s.collectibles id) no_collectible _ s λ c e.
      Post-lift Held (ensure_user_is_lessor a c) _ s λ u mine.
        Post-ensure Held (is_none c.lessee) not_allowed_while_rented _ s λ free.
          let t = record s {
            collectibles = update s.collectibles id none;
            lessor_collectibles =
                update s.lessor_collectibles a
                  (some (without id (get_or (s.lessor_collectibles a) [])));
          } in
          Post-unequip Held a c.collectible_id t λ evs.
            let lessor : c.lessor ≡ a = ground arith in
            let key = inv.owned.keyed id c e in
            record {
              owned = rw lessor at (burn-IsOwned inv.owned id c e);
              listed = put-IsListed inv.listed id none (λ h. cc);
              entitled =
                  rw key (lose-IsEntitled inv.entitled a id none (λ x ne h. ground (arith, e)));
            }

  pub set_rentable-Held :
      (origin : Origin) (id price minimum maximum : ℕ)
      → Post Held (set_rentable cfg origin id price minimum maximum s)
  unfolding set_rentable
  set_rentable-Held root id price minimum maximum = tt
  set_rentable-Held unsigned id price minimum maximum = tt
  set_rentable-Held (signed a) id price minimum maximum =
      Post-ok_or Held (s.collectibles id) no_collectible _ s λ c e.
        Post-lift Held (ensure_user_is_lessor a c) _ s λ u mine.
          Post-ensure Held (leb minimum maximum) minimum_must_be_less_than_maximum _ s λ range.
            Post-ensure Held (is_none c.lessee) not_allowed_while_rented _ s λ free.
              let d = record c {
                price_per_block = some price;
                rentable = true;
                minimum_rental_period = some minimum;
                maximum_rental_period = some maximum;
              } in
              let t = record s { collectibles = update s.collectibles id (some d) } in
              Post-ok_or Held (try_push cfg s.rentable_collectibles id) too_many_collectibles _ t
                λ rs pushed.
                  Post-unequip_then Held a c.collectible_id
                    (record t { rentable_collectibles = rs })
                    (deposit_event (rent_made_available id price))
                    λ evs. record {
                      owned = put-IsOwned inv.owned id c d e refl refl;
                      listed =
                          rw (try_push-ok cfg s.rentable_collectibles id rs pushed)
                            (offer-IsListed inv.listed id (some d));
                      entitled =
                          unequip-IsEntitled
                            (put-IsEntitled inv.entitled id (some d) (λ x h. rw e at h)) a
                            c.collectible_id;
                    }

  pub set_unrentable-Held : (origin : Origin) (id : ℕ) → Post Held (set_unrentable cfg origin id s)
  unfolding set_unrentable
  set_unrentable-Held root id = tt
  set_unrentable-Held unsigned id = tt
  set_unrentable-Held (signed a) id = elim (Option-cases (s.collectibles id)) [
    | inl e ↦ ground arith
    | inr (c, e) ↦
        let d = record c { rentable = false } in
        ground (
          arith,
          put-IsOwned inv.owned id c d e refl refl,
          withdraw-IsListed inv.listed id (some d) refl,
          put-IsEntitled inv.entitled id (some d) (λ x h. rw e at h),
        )
  ]

  pub set_recurring-Held :
      (origin : Origin) (id : ℕ) (recurring : Bool)
      → Post Held (set_recurring cfg origin id recurring s)
  unfolding set_recurring
  set_recurring-Held root id recurring = tt
  set_recurring-Held unsigned id recurring = tt
  set_recurring-Held (signed a) id recurring = elim (Option-cases (s.collectibles id)) [
    | inl e ↦ ground arith
    | inr (c, e) ↦ ground (
      arith,
      put-IsOwned inv.owned id c c e refl refl,
      put-IsListed inv.listed id (some c) (λ h. rw e h),
      put-IsEntitled inv.entitled id (some c) (λ x h. rw e at h),
    )
  ]

  pub equip_collectible-Held :
      (origin : Origin) (id : ℕ) → Post Held (equip_collectible cfg origin id s)
  unfolding equip_collectible
  equip_collectible-Held root id = tt
  equip_collectible-Held unsigned id = tt
  equip_collectible-Held (signed a) id = elim (Option-cases (s.collectibles id)) [
    | inl e ↦ ground arith
    | inr (c, e) ↦ ground (arith, equip-IsEntitled inv.entitled a id)
  ]

  pub unequip_collectible-Held :
      (origin : Origin) (id : ℕ) → Post Held (unequip_collectible cfg origin id s)
  unfolding unequip_collectible
  unequip_collectible-Held root id = tt
  unequip_collectible-Held unsigned id = tt
  unequip_collectible-Held (signed a) id = elim (Option-cases (s.collectibles id)) [
    | inl e ↦ ground arith
    | inr (c, e) ↦ ground (arith, unequip-IsEntitled inv.entitled a c.collectible_id)
  ]

  pub rent-Held :
      (origin : Origin) (id blocks : ℕ) (recurring : Bool)
      → Post Held (rent cfg origin id blocks recurring s)
  unfolding rent
  rent-Held root id blocks recurring = tt
  rent-Held unsigned id blocks recurring = tt
  rent-Held (signed a) id blocks recurring =
      Post-map (Takes cfg s a id blocks recurring) Held _
        (λ v h.
          let c = h.collectible in
          let d = record c { lessee = some a } in
          rw h.rents.left (record {
            owned = put-IsOwned inv.owned id c d h.known refl refl;
            listed = put-IsListed inv.listed id (some d) (λ k. rw h.known k);
            entitled =
                put-IsEntitled inv.entitled id (some d) (λ x k. ground (arith, h.known, h.free));
          }))
        (rent-Takes cfg s a id blocks recurring)

  pub extend_rent-Held :
      (origin : Origin) (id blocks : ℕ) → Post Held (extend_rent cfg origin id blocks s)
  unfolding extend_rent
  extend_rent-Held root id blocks = tt
  extend_rent-Held unsigned id blocks = tt
  extend_rent-Held (signed a) id blocks =
      Post-map (Prolongs cfg s a id blocks) Held _
        (λ v h.
          rw h.extends.left
            (record { owned = inv.owned; listed = inv.listed; entitled = inv.entitled }))
        (extend_rent-Prolongs cfg s a id blocks)
