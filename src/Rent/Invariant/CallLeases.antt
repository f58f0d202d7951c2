-- ===== src/Rent/Invariant/CallLeases.antt =====
-- The calls of pallets/rent/src/lib.rs keep `Collectibles`, `LesseeCollectibles` and
-- `PendingRentals` in agreement.
use pallet_rent.Prelude.{
  ℕ, refl, Bool, true, false, none, some, [], not, arith, is_none, leb, get_or, update, without,
}
use pallet_rent.Rent.Types.{
  Config, State, no_collectible, not_allowed_while_rented, minimum_must_be_less_than_maximum,
  too_many_collectibles, rent_made_available, duplicate_collectible, too_many_collectibles_owned,
  collectible_unequipped, too_many_collectibles_equiped,
}
use pallet_rent.Rent.Effects.{is_ok, deposit_event}
use pallet_rent.Rent.Rules.{
  Post, Post-ok_or, Post-lift, Post-ensure, Post-continue, Post-elim, Post-when-lift,
}
use pallet_rent.Rent.Helpers.{gen_collectible_id, ensure_user_is_lessor, ensure_user_is_lessee}
use pallet_rent.Rent.Helpers.Results.{Post-unequip, Post-unequip_then}
use pallet_rent.Rent.Internal.{minted, try_push, do_mint}
use pallet_rent.Rent.Calls.{
  Origin, root, signed, unsigned, mint, burn, set_rentable, set_unrentable, set_recurring,
  equip_account, equip_collectible, unequip_collectible,
}
use pallet_rent.Rent.Invariant.Leases.{IsLeased, put-IsLeased, renew-IsLeased}

abbrev pub Leased : {L : Type 0} → State L → Type 0
Leased s = IsLeased s.collectibles s.lessee_collectibles s.pending_rentals

module _ {L : Type 0} (cfg : Config L) (s : State L) (inv : Leased s) where
  pub mint-Leased : (origin : Origin) → Post Leased (mint cfg origin s)
  unfolding mint do_mint
  mint-Leased root = tt
  mint-Leased unsigned = tt
  mint-Leased (signed a) =
      let id = gen_collectible_id cfg s in
      let owned = get_or (s.lessor_collectibles a) [] in
      let t = record s { collectibles = update s.collectibles id (some (minted id a)) } in
      Post-continue Leased (do_mint cfg a id s) _ λ x v done.
        Post-elim Leased (do_mint cfg a id s) x v
          (Post-ensure Leased (is_none (s.collectibles id)) duplicate_collectible _ s λ new.
            Post-ok_or Leased (try_push cfg owned id) too_many_collectibles_owned _ t λ ids pushed.
              put-IsLeased inv id (some (minted id a)) (λ d k. ground (arith, k)) (ground arith))
          done

  pub burn-Leased : (origin : Origin) (id : ℕ) → Post Leased (burn cfg origin id s)
  unfolding burn
  burn-Leased root id = tt
  burn-Leased unsigned id = tt
  burn-Leased (signed a) id =
      let t = record s {
        collectibles = update s.collectibles id none;
        lessor_collectibles =
            update s.lessor_collectibles a
              (some (without id (get_or (s.lessor_collectibles a) [])));
      } in
      Post-ok_or Leased (s.collectibles id) no_collectible _ s λ c e.
        Post-lift Leased (ensure_user_is_lessor a c) _ s λ u mine.
          Post-ensure Leased (is_none c.lessee) not_allowed_while_rented _ s λ free.
            Post-unequip Leased a c.collectible_id t
              λ evs. put-IsLeased inv id none (λ d h. cc) (ground (arith, e))

  pub set_rentable-Leased :
      (origin : Origin) (id price minimum maximum : ℕ)
      → Post Leased (set_rentable cfg origin id price minimum maximum s)
  unfolding set_rentable
  set_rentable-Leased root id price minimum maximum = tt
  set_rentable-Leased unsigned id price minimum maximum = tt
  set_rentable-Leased (signed a) id price minimum maximum =
      Post-ok_or Leased (s.collectibles id) no_collectible _ s λ c e.
        Post-lift Leased (ensure_user_is_lessor a c) _ s λ u mine.
          Post-ensure Leased (leb minimum maximum) minimum_must_be_less_than_maximum _ s λ range.
            Post-ensure Leased (is_none c.lessee) not_allowed_while_rented _ s λ free.
              let d = record c {
                price_per_block = some price;
                rentable = true;
                minimum_rental_period = some minimum;
                maximum_rental_period = some maximum;
              } in
              let t = record s { collectibles = update s.collectibles id (some d) } in
              Post-ok_or Leased (try_push cfg s.rentable_collectibles id) too_many_collectibles _ t
                λ rs pushed.
                  Post-unequip_then Leased a c.collectible_id
                    (record t { rentable_collectibles = rs })
                    (deposit_event (rent_made_available id price))
                    λ evs.
                      let fit = inv.fits id c e in
                      put-IsLeased inv id (some d) (λ x h. ground (arith, fit, h))
                        (ground (arith, e))

  pub set_unrentable-Leased :
      (origin : Origin) (id : ℕ) → Post Leased (set_unrentable cfg origin id s)
  unfolding set_unrentable
  set_unrentable-Leased root id = tt
  set_unrentable-Leased unsigned id = tt
  set_unrentable-Leased (signed a) id =
      Post-ok_or Leased (s.collectibles id) no_collectible _ s λ c e.
        Post-lift Leased (ensure_user_is_lessor a c) _ s λ u mine.
          let fit = inv.fits id c e in
          put-IsLeased inv id (some (record c { rentable = false })) (λ x h. ground (arith, fit, h))
            (ground (arith, e))

  pub set_recurring-Leased :
      (origin : Origin) (id : ℕ) (recurring : Bool)
      → Post Leased (set_recurring cfg origin id recurring s)
  unfolding set_recurring
  set_recurring-Leased root id recurring = tt
  set_recurring-Leased unsigned id recurring = tt
  set_recurring-Leased (signed a) id recurring =
      Post-ok_or Leased (s.collectibles id) no_collectible _ s λ c e.
        Post-lift Leased (ensure_user_is_lessee a c) _ s λ u mine.
          Post-ok_or Leased (s.lessee_collectibles a id) no_collectible _ s λ r h.
            let next = renew-IsLeased inv id a r (record r { recurring = recurring }) h refl in
            let fit = inv.fits id c e in
            put-IsLeased next id (some c) (λ d k. ground (arith, fit, k)) (rw e refl)

  pub equip_collectible-Leased :
      (origin : Origin) (id : ℕ) → Post Leased (equip_collectible cfg origin id s)
  unfolding equip_collectible
  equip_collectible-Leased root id = tt
  equip_collectible-Leased unsigned id = tt
  equip_collectible-Leased (signed a) id =
      Post-ok_or Leased (s.collectibles id) no_collectible _ s λ c e.
        Post-lift Leased (equip_account a c) _ s λ x allowed.
          Post-ok_or Leased (try_push cfg (get_or (s.account_equips x) []) id)
            too_many_collectibles_equiped _ s λ ids pushed. inv

  pub unequip_collectible-Leased :
      (origin : Origin) (id : ℕ) → Post Leased (unequip_collectible cfg origin id s)
  unfolding unequip_collectible
  unequip_collectible-Leased root id = tt
  unequip_collectible-Leased unsigned id = tt
  unequip_collectible-Leased (signed a) id =
      Post-ok_or Leased (s.collectibles id) no_collectible _ s λ c e.
        Post-when-lift Leased (not (is_ok (ensure_user_is_lessee a c))) (ensure_user_is_lessor a c)
          _ s
          (Post-unequip_then Leased a c.collectible_id s
            (deposit_event (collectible_unequipped a id)) λ evs. inv)
