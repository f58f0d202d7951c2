-- ===== src/Rent/Chain/SameRentals.antt =====
-- The calls of pallets/rent/src/lib.rs that touch neither balances nor rentals.
use pallet_rent.Prelude.{
  ℕ, Option, List, [], ◌≡◌, refl, Bool, true, false, not, none, some, is_none, leb, get_or, update,
  without,
}
use pallet_rent.Rent.Types.{
  Event, Config, Collectible, State, no_collectible, not_allowed_while_rented,
  minimum_must_be_less_than_maximum, too_many_collectibles, rent_made_available,
  duplicate_collectible, too_many_collectibles_owned, collectible_unequipped,
  too_many_collectibles_equiped,
}
use pallet_rent.Rent.Effects.{is_ok, deposit_event}
use pallet_rent.Rent.Rules.{
  Post, Post-ok_or, Post-lift, Post-ensure, Post-continue, Post-elim, Post-when-lift,
}
use pallet_rent.Rent.Helpers.{gen_collectible_id, ensure_user_is_lessor, ensure_user_is_lessee}
use pallet_rent.Rent.Helpers.Results.{Post-unequip, Post-unequip_then}
use pallet_rent.Rent.Internal.{minted, try_push, do_mint}
use pallet_rent.Rent.Calls.{
  signed, mint, burn, set_rentable, set_unrentable, equip_account, equip_collectible,
  unequip_collectible,
}
use pallet_rent.Rent.Chain.{Call, dispatch}

-- The balances, the rentals and what is pending are the same.
pub record SameRentals {L : Type 0} (s t : State L) : Type 0 where
  pub balances : t.balances ≡ s.balances
  pub rentals : t.lessee_collectibles ≡ s.lessee_collectibles
  pub pending : t.pending_rentals ≡ s.pending_rentals
  pub number : t.block_number ≡ s.block_number

-- What else there is in the storage does not matter.
same :
    {L : Type 0} {s : State L} {cs : ℕ → Option Collectible} {ls es : ℕ → Option (List ℕ)}
    {rs : List ℕ} {evs : List Event}
    → SameRentals s (record s {
      collectibles = cs;
      lessor_collectibles = ls;
      rentable_collectibles = rs;
      account_equips = es;
      events = evs;
    })
same = record { balances = refl; rentals = refl; pending = refl; number = refl }

-- Calls that may change a rental.
abbrev pub changes_rentals : Call → Bool
changes_rentals (Call.rent id blocks recurring) = true
changes_rentals (Call.extend_rent id blocks) = true
changes_rentals (Call.set_recurring id recurring) = true
changes_rentals _ = false

module _ {L : Type 0} (cfg : Config L) (s : State L) (a : ℕ) where
  mint-SameRentals : Post (SameRentals s) (mint cfg (signed a) s)
  unfolding mint do_mint
  mint-SameRentals =
      let id = gen_collectible_id cfg s in
      let owned = get_or (s.lessor_collectibles a) [] in
      let t = record s { collectibles = update s.collectibles id (some (minted id a)) } in
      Post-continue (SameRentals s) (do_mint cfg a id s) _ λ x v done.
        Post-elim (SameRentals s) (do_mint cfg a id s) x v
          (Post-ensure (SameRentals s) (is_none (s.collectibles id)) duplicate_collectible _ s
            λ new.
              Post-ok_or (SameRentals s) (try_push cfg owned id) too_many_collectibles_owned _ t
                λ ids pushed. same)
          done

  burn-SameRentals : (id : ℕ) → Post (SameRentals s) (burn cfg (signed a) id s)
  unfolding burn
  burn-SameRentals id =
      let t = record s {
        collectibles = update s.collectibles id none;
        lessor_collectibles =
            update s.lessor_collectibles a
              (some (without id (get_or (s.lessor_collectibles a) [])));
      } in
      Post-ok_or (SameRentals s) (s.collectibles id) no_collectible _ s λ c e.
        Post-lift (SameRentals s) (ensure_user_is_lessor a c) _ s λ u mine.
          Post-ensure (SameRentals s) (is_none c.lessee) not_allowed_while_rented _ s
            λ free. Post-unequip (SameRentals s) a c.collectible_id t λ evs. same

  set_rentable-SameRentals :
      (id price minimum maximum : ℕ)
      → Post (SameRentals s) (set_rentable cfg (signed a) id price minimum maximum s)
  unfolding set_rentable
  set_rentable-SameRentals id price minimum maximum =
      Post-ok_or (SameRentals s) (s.collectibles id) no_collectible _ s λ c e.
        Post-lift (SameRentals s) (ensure_user_is_lessor a c) _ s λ u mine.
          Post-ensure (SameRentals s) (leb minimum maximum) minimum_must_be_less_than_maximum _ s
            λ range.
              Post-ensure (SameRentals s) (is_none c.lessee) not_allowed_while_rented _ s λ free.
                let d = record c {
                  price_per_block = some price;
                  rentable = true;
                  minimum_rental_period = some minimum;
                  maximum_rental_period = some maximum;
                } in
                let t = record s { collectibles = update s.collectibles id (some d) } in
                Post-ok_or (SameRentals s) (try_push cfg s.rentable_collectibles id)
                  too_many_collectibles _ t
                  λ rs pushed.
                    Post-unequip_then (SameRentals s) a c.collectible_id
                      (record t { rentable_collectibles = rs })
                      (deposit_event (rent_made_available id price)) λ evs. same

  set_unrentable-SameRentals : (id : ℕ) → Post (SameRentals s) (set_unrentable cfg (signed a) id s)
  unfolding set_unrentable
  set_unrentable-SameRentals id =
      Post-ok_or (SameRentals s) (s.collectibles id) no_collectible _ s
        λ c e. Post-lift (SameRentals s) (ensure_user_is_lessor a c) _ s λ u mine. same

  equip_collectible-SameRentals :
      (id : ℕ) → Post (SameRentals s) (equip_collectible cfg (signed a) id s)
  unfolding equip_collectible
  equip_collectible-SameRentals id =
      Post-ok_or (SameRentals s) (s.collectibles id) no_collectible _ s λ c e.
        Post-lift (SameRentals s) (equip_account a c) _ s λ x allowed.
          Post-ok_or (SameRentals s) (try_push cfg (get_or (s.account_equips x) []) id)
            too_many_collectibles_equiped _ s λ ids pushed. same

  unequip_collectible-SameRentals :
      (id : ℕ) → Post (SameRentals s) (unequip_collectible cfg (signed a) id s)
  unfolding unequip_collectible
  unequip_collectible-SameRentals id =
      Post-ok_or (SameRentals s) (s.collectibles id) no_collectible _ s λ c e.
        Post-when-lift (SameRentals s) (not (is_ok (ensure_user_is_lessee a c)))
          (ensure_user_is_lessor a c) _ s
          (Post-unequip_then (SameRentals s) a c.collectible_id s
            (deposit_event (collectible_unequipped a id)) λ evs. same)

  pub dispatch-SameRentals :
      (call : Call)
      → changes_rentals call ≡ false
      → Post (SameRentals s) (dispatch cfg call (signed a) s)
  unfolding dispatch
  dispatch-SameRentals Call.mint quiet = mint-SameRentals
  dispatch-SameRentals (Call.burn id) quiet = burn-SameRentals id
  dispatch-SameRentals (Call.set_rentable id p m n) quiet = set_rentable-SameRentals id p m n
  dispatch-SameRentals (Call.rent id b r) quiet = cc
  dispatch-SameRentals (Call.set_unrentable id) quiet = set_unrentable-SameRentals id
  dispatch-SameRentals (Call.set_recurring id r) quiet = cc
  dispatch-SameRentals (Call.extend_rent id b) quiet = cc
  dispatch-SameRentals (Call.equip_collectible id) quiet = equip_collectible-SameRentals id
  dispatch-SameRentals (Call.unequip_collectible id) quiet = unequip_collectible-SameRentals id
