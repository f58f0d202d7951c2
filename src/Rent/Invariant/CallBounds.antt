-- ===== src/Rent/Invariant/CallBounds.antt =====
-- No call of pallets/rent/src/lib.rs makes a bounded list longer than its bound.
use pallet_rent.Prelude.{
  ℕ, Bool, true, none, some, [], arith, leb, is_none, get_or, without, length-without-le,
  length-retain-le, not, update, ◌==◌,
}
use pallet_rent.Rent.Types.{
  Config, State, no_collectible, not_allowed_while_rented, minimum_must_be_less_than_maximum,
  too_many_collectibles, rent_made_available, duplicate_collectible, too_many_collectibles_owned,
  too_many_collectibles_equiped, collectible_unequipped,
}
use pallet_rent.Rent.Effects.{is_ok, deposit_event}
use pallet_rent.Rent.Rules.{
  Post, Post-map, Post-elim, Post-continue, Post-when-lift, Post-ok_or, Post-lift, Post-ensure,
}
use pallet_rent.Rent.Helpers.{ensure_user_is_lessee, ensure_user_is_lessor, gen_collectible_id}
use pallet_rent.Rent.Helpers.Results.{Post-unequip, Post-unequip_then}
use pallet_rent.Rent.Internal.{try_push, minted, do_mint}
use pallet_rent.Rent.Internal.Extending.{without_entries}
use pallet_rent.Rent.Calls.{
  Origin, root, signed, unsigned, mint, burn, set_rentable, rent, set_unrentable, set_recurring,
  extend_rent, equip_account, equip_collectible, unequip_collectible,
}
use pallet_rent.Rent.Calls.Renting.{Takes, rent-Takes, Prolongs, extend_rent-Prolongs}
use pallet_rent.Rent.Invariant.Bounds.{
  Bounded, update-AllWithin, update-AllShort, without-AllWithin, append-AllShort, try_push-le,
}

module _ {L : Type 0} (cfg : Config L) (s : State L) (inv : Bounded cfg s) where
  open inv use {lessors, equips, rentables, pending}

  pub mint-Bounded : (origin : Origin) → Post (Bounded cfg) (mint cfg origin s)
  unfolding mint do_mint
  mint-Bounded root = tt
  mint-Bounded unsigned = tt
  mint-Bounded (signed a) =
      let id = gen_collectible_id cfg s in
      let owned = get_or (s.lessor_collectibles a) [] in
      let t = record s { collectibles = update s.collectibles id (some (minted id a)) } in
      Post-continue (Bounded cfg) (do_mint cfg a id s) _ λ x v done.
        Post-elim (Bounded cfg) (do_mint cfg a id s) x v
          (Post-ensure (Bounded cfg) (is_none (s.collectibles id)) duplicate_collectible _ s λ new.
            Post-ok_or (Bounded cfg) (try_push cfg owned id) too_many_collectibles_owned _ t
              λ ids pushed. record {
                lessors =
                    update-AllWithin cfg.maximum_owned s.lessor_collectibles a ids lessors
                      (try_push-le cfg owned id ids pushed);
                equips = equips;
                rentables = rentables;
                pending = pending;
              })
          done

  pub burn-Bounded : (origin : Origin) (id : ℕ) → Post (Bounded cfg) (burn cfg origin id s)
  unfolding burn
  burn-Bounded root id = tt
  burn-Bounded unsigned id = tt
  burn-Bounded (signed a) id =
      let owned = get_or (s.lessor_collectibles a) [] in
      let t = record s {
        collectibles = update s.collectibles id none;
        lessor_collectibles = update s.lessor_collectibles a (some (without id owned));
      } in
      Post-ok_or (Bounded cfg) (s.collectibles id) no_collectible _ s λ c e.
        Post-lift (Bounded cfg) (ensure_user_is_lessor a c) _ s λ u mine.
          Post-ensure (Bounded cfg) (is_none c.lessee) not_allowed_while_rented _ s λ free.
            Post-unequip (Bounded cfg) a c.collectible_id t λ evs. record {
              lessors = without-AllWithin cfg.maximum_owned s.lessor_collectibles a id lessors;
              equips =
                  without-AllWithin cfg.maximum_owned s.account_equips a c.collectible_id equips;
              rentables = rentables;
              pending = pending;
            }

  pub set_rentable-Bounded :
      (origin : Origin) (id price minimum maximum : ℕ)
      → Post (Bounded cfg) (set_rentable cfg origin id price minimum maximum s)
  unfolding set_rentable
  set_rentable-Bounded root id price minimum maximum = tt
  set_rentable-Bounded unsigned id price minimum maximum = tt
  set_rentable-Bounded (signed a) id price minimum maximum =
      Post-ok_or (Bounded cfg) (s.collectibles id) no_collectible _ s λ c e.
        Post-lift (Bounded cfg) (ensure_user_is_lessor a c) _ s λ u mine.
          Post-ensure (Bounded cfg) (leb minimum maximum) minimum_must_be_less_than_maximum _ s
            λ range.
              Post-ensure (Bounded cfg) (is_none c.lessee) not_allowed_while_rented _ s λ free.
                let d = record c {
                  price_per_block = some price;
                  rentable = true;
                  minimum_rental_period = some minimum;
                  maximum_rental_period = some maximum;
                } in
                let t = record s { collectibles = update s.collectibles id (some d) } in
                Post-ok_or (Bounded cfg) (try_push cfg s.rentable_collectibles id)
                  too_many_collectibles _ t
                  λ rs pushed.
                    Post-unequip_then (Bounded cfg) a c.collectible_id
                      (record t { rentable_collectibles = rs })
                      (deposit_event (rent_made_available id price))
                      λ evs. record {
                        lessors = lessors;
                        equips =
                            without-AllWithin cfg.maximum_owned s.account_equips a c.collectible_id
                              equips;
                        rentables = try_push-le cfg s.rentable_collectibles id rs pushed;
                        pending = pending;
                      }

  pub set_unrentable-Bounded :
      (origin : Origin) (id : ℕ) → Post (Bounded cfg) (set_unrentable cfg origin id s)
  unfolding set_unrentable
  set_unrentable-Bounded root id = tt
  set_unrentable-Bounded unsigned id = tt
  set_unrentable-Bounded (signed a) id =
      Post-ok_or (Bounded cfg) (s.collectibles id) no_collectible _ s λ c e.
        Post-lift (Bounded cfg) (ensure_user_is_lessor a c) _ s λ u mine. record {
          lessors = lessors;
          equips = equips;
          rentables = omega (arith, length-without-le id s.rentable_collectibles, rentables);
          pending = pending;
        }

  pub set_recurring-Bounded :
      (origin : Origin) (id : ℕ) (recurring : Bool)
      → Post (Bounded cfg) (set_recurring cfg origin id recurring s)
  unfolding set_recurring
  set_recurring-Bounded root id recurring = tt
  set_recurring-Bounded unsigned id recurring = tt
  set_recurring-Bounded (signed a) id recurring =
      Post-ok_or (Bounded cfg) (s.collectibles id) no_collectible _ s λ c e.
        Post-lift (Bounded cfg) (ensure_user_is_lessee a c) _ s λ u mine.
          Post-ok_or (Bounded cfg) (s.lessee_collectibles a id) no_collectible _ s λ r h. record {
            lessors = lessors;
            equips = equips;
            rentables = rentables;
            pending = pending;
          }

  pub equip_collectible-Bounded :
      (origin : Origin) (id : ℕ) → Post (Bounded cfg) (equip_collectible cfg origin id s)
  unfolding equip_collectible
  equip_collectible-Bounded root id = tt
  equip_collectible-Bounded unsigned id = tt
  equip_collectible-Bounded (signed a) id =
      Post-ok_or (Bounded cfg) (s.collectibles id) no_collectible _ s λ c e.
        Post-lift (Bounded cfg) (equip_account a c) _ s λ x allowed.
          Post-ok_or (Bounded cfg) (try_push cfg (get_or (s.account_equips x) []) id)
            too_many_collectibles_equiped _ s
            λ ids pushed. record {
              lessors = lessors;
              equips =
                  update-AllWithin cfg.maximum_owned s.account_equips x ids equips
                    (try_push-le cfg (get_or (s.account_equips x) []) id ids pushed);
              rentables = rentables;
              pending = pending;
            }

  pub unequip_collectible-Bounded :
      (origin : Origin) (id : ℕ) → Post (Bounded cfg) (unequip_collectible cfg origin id s)
  unfolding unequip_collectible
  unequip_collectible-Bounded root id = tt
  unequip_collectible-Bounded unsigned id = tt
  unequip_collectible-Bounded (signed a) id =
      Post-ok_or (Bounded cfg) (s.collectibles id) no_collectible _ s λ c e.
        Post-when-lift (Bounded cfg) (not (is_ok (ensure_user_is_lessee a c)))
          (ensure_user_is_lessor a c) _ s
          (Post-unequip_then (Bounded cfg) a c.collectible_id s
            (deposit_event (collectible_unequipped a id))
            λ evs. record {
              lessors = lessors;
              equips =
                  without-AllWithin cfg.maximum_owned s.account_equips a c.collectible_id equips;
              rentables = rentables;
              pending = pending;
            })

  pub rent-Bounded :
      (origin : Origin) (id blocks : ℕ) (recurring : Bool)
      → Post (Bounded cfg) (rent cfg origin id blocks recurring s)
  unfolding rent
  rent-Bounded root id blocks recurring = tt
  rent-Bounded unsigned id blocks recurring = tt
  rent-Bounded (signed a) id blocks recurring =
      Post-map (Takes cfg s a id blocks recurring) (Bounded cfg) _
        (λ v h. rw h.rents.left (record {
          lessors = lessors;
          equips = equips;
          rentables = rentables;
          pending =
              append-AllShort cfg s.pending_rentals s.block_number _ h.rents.next id a pending
                h.rents.found;
        }))
        (rent-Takes cfg s a id blocks recurring)

  pub extend_rent-Bounded :
      (origin : Origin) (id blocks : ℕ) → Post (Bounded cfg) (extend_rent cfg origin id blocks s)
  unfolding extend_rent
  extend_rent-Bounded root id blocks = tt
  extend_rent-Bounded unsigned id blocks = tt
  extend_rent-Bounded (signed a) id blocks =
      Post-map (Prolongs cfg s a id blocks) (Bounded cfg) _
        (λ v h.
          let x = h.extends in
          let old = x.rental.next_rent_block in
          let kept = without_entries h.collectible.collectible_id (s.pending_rentals old) in
          rw x.left (record {
            lessors = lessors;
            equips = equips;
            rentables = rentables;
            pending =
                append-AllShort cfg (update s.pending_rentals old kept) s.block_number _ x.next
                  h.collectible.collectible_id x.lessee
                  (update-AllShort cfg.maximum_rentables_per_block s.pending_rentals old kept
                    pending
                    (omega (
                      arith,
                      length-retain-le (λ (e : ℕ × ℕ). not (e.0 == h.collectible.collectible_id))
                          (s.pending_rentals old),
                      pending old,
                    )))
                  x.found;
          }))
        (extend_rent-Prolongs cfg s a id blocks)
