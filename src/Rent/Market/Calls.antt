-- ===== src/Rent/Market/Calls.antt =====
-- Each call of pallets/rent/src/lib.rs by an account is a move of that account on the market.
use pallet_rent.Prelude.{
  ℕ, [], ◌≡◌, refl, ap, ◌∙◌, Bool, true, false, not, Option, none, some, arith, is_none, leb,
  get_or, update, update₂, without,
}
use pallet_rent.Rent.Types.{
  Config, RentalPeriodConfig, State, no_collectible, not_allowed_while_rented,
  minimum_must_be_less_than_maximum, too_many_collectibles, rent_made_available,
  duplicate_collectible, too_many_collectibles_owned, collectible_unequipped,
  too_many_collectibles_equiped,
}
use pallet_rent.Rent.Effects.{is_ok, deposit_event}
use pallet_rent.Rent.Rules.{
  Post, Post-ok_or, Post-lift, Post-ensure, Post-continue, Post-elim, Post-when-lift, Post-map,
}
use pallet_rent.Rent.Helpers.{gen_collectible_id, ensure_user_is_lessor, ensure_user_is_lessee}
use pallet_rent.Rent.Helpers.Results.{Post-unequip, Post-unequip_then}
use pallet_rent.Rent.Internal.{minted, try_push, do_mint}
use pallet_rent.Rent.Calls.{
  signed, mint, burn, set_rentable, rent, set_unrentable, set_recurring, extend_rent, within,
  equip_account, equip_collectible, unequip_collectible,
}
use pallet_rent.Rent.Calls.Renting.{Takes, rent-Takes, Prolongs, extend_rent-Prolongs}
use pallet_rent.Rent.Invariant.CallLeases.{Leased}
use pallet_rent.Rent.Chain.{Call, dispatch}
use pallet_rent.Rent.Market.{
  AtLeast, AtMost, Move, stayed, created, destroyed, offered, withdrawn, rented, repeated,
  prolonged,
}
use pallet_rent.Rent.Market.View.{
  view, deal, deal_of, tenancy, deal_of-rental, view-known, deals-put, deals-put_rental,
  deals-rental,
}

within-AtLeast : (o : Option ℕ) (n : ℕ) → within (λ minimum. leb minimum n) o ≡ true → AtLeast o n
within-AtLeast none n h = tt
within-AtLeast (some m) n h = ground arith

within-AtMost : (o : Option ℕ) (n : ℕ) → within (λ maximum. leb n maximum) o ≡ true → AtMost o n
within-AtMost none n h = tt
within-AtMost (some m) n h = ground arith

module _ {L : Type 0} (cfg : Config L) (s : State L) (a : ℕ) where
  -- What the call did is a move of the account.
  abbrev pub Moved : State L → Type 0
  Moved t = Move a (view s) (view t)

  mint-Moved : Post Moved (mint cfg (signed a) s)
  unfolding mint do_mint
  mint-Moved =
      let id = gen_collectible_id cfg s in
      let owned = get_or (s.lessor_collectibles a) [] in
      let t = record s { collectibles = update s.collectibles id (some (minted id a)) } in
      Post-continue Moved (do_mint cfg a id s) _ λ x v done.
        Post-elim Moved (do_mint cfg a id s) x v
          (Post-ensure Moved (is_none (s.collectibles id)) duplicate_collectible _ s λ new.
            Post-ok_or Moved (try_push cfg owned id) too_many_collectibles_owned _ t λ ids pushed.
              created id (ground arith)
                (deals-put s.collectibles s.lessee_collectibles id (some (minted id a))))
          done

  burn-Moved : (id : ℕ) → Post Moved (burn cfg (signed a) id s)
  unfolding burn ensure_user_is_lessor
  burn-Moved id =
      let t = record s {
        collectibles = update s.collectibles id none;
        lessor_collectibles =
            update s.lessor_collectibles a
              (some (without id (get_or (s.lessor_collectibles a) [])));
      } in
      Post-ok_or Moved (s.collectibles id) no_collectible _ s λ c e.
        Post-lift Moved (ensure_user_is_lessor a c) _ s λ u mine.
          Post-ensure Moved (is_none c.lessee) not_allowed_while_rented _ s λ free.
            Post-unequip Moved a c.collectible_id t λ evs.
              destroyed id (deal_of id c s.lessee_collectibles) (view-known s id c e) (ground arith)
                (ground arith) (deals-put s.collectibles s.lessee_collectibles id none)

  set_rentable-Moved :
      (id price minimum maximum : ℕ)
      → Post Moved (set_rentable cfg (signed a) id price minimum maximum s)
  unfolding set_rentable ensure_user_is_lessor
  set_rentable-Moved id price minimum maximum =
      Post-ok_or Moved (s.collectibles id) no_collectible _ s λ c e.
        Post-lift Moved (ensure_user_is_lessor a c) _ s λ u mine.
          Post-ensure Moved (leb minimum maximum) minimum_must_be_less_than_maximum _ s λ range.
            Post-ensure Moved (is_none c.lessee) not_allowed_while_rented _ s λ free.
              let d = record c {
                price_per_block = some price;
                rentable = true;
                minimum_rental_period = some minimum;
                maximum_rental_period = some maximum;
              } in
              let t = record s { collectibles = update s.collectibles id (some d) } in
              Post-ok_or Moved (try_push cfg s.rentable_collectibles id) too_many_collectibles _ t
                λ rs pushed.
                  Post-unequip_then Moved a c.collectible_id
                    (record t { rentable_collectibles = rs })
                    (deposit_event (rent_made_available id price))
                    λ evs.
                      offered id price minimum maximum (deal_of id c s.lessee_collectibles)
                        (view-known s id c e) (ground arith) (ground arith) (ground arith)
                        (deals-put s.collectibles s.lessee_collectibles id (some d))

  set_unrentable-Moved : (id : ℕ) → Post Moved (set_unrentable cfg (signed a) id s)
  unfolding set_unrentable ensure_user_is_lessor
  set_unrentable-Moved id = Post-ok_or Moved (s.collectibles id) no_collectible _ s λ c e.
      Post-lift Moved (ensure_user_is_lessor a c) _ s λ u mine.
        withdrawn id (deal_of id c s.lessee_collectibles) (view-known s id c e) (ground arith)
          (deals-put s.collectibles s.lessee_collectibles id (some (record c { rentable = false })))

  set_recurring-Moved :
      (id : ℕ) (recurring : Bool) → Post Moved (set_recurring cfg (signed a) id recurring s)
  unfolding set_recurring ensure_user_is_lessee
  set_recurring-Moved id recurring = Post-ok_or Moved (s.collectibles id) no_collectible _ s λ c e.
      Post-lift Moved (ensure_user_is_lessee a c) _ s λ u mine.
        Post-ok_or Moved (s.lessee_collectibles a id) no_collectible _ s λ r h.
          let held : c.lessee ≡ some a = ground arith in
          let q = record r { recurring = recurring } in
          repeated id (deal_of id c s.lessee_collectibles) (tenancy a r) recurring
            (view-known s id c e) (rw (held, h) refl) refl
            (deals-put_rental s.collectibles s.lessee_collectibles a id (some c) (some q)
              ∙ ap (λ d. update (view s) id (some d))
                  (deal_of-rental id c s.lessee_collectibles a q held))

  equip_collectible-Moved : (id : ℕ) → Post Moved (equip_collectible cfg (signed a) id s)
  unfolding equip_collectible
  equip_collectible-Moved id = Post-ok_or Moved (s.collectibles id) no_collectible _ s λ c e.
      Post-lift Moved (equip_account a c) _ s λ x allowed.
        Post-ok_or Moved (try_push cfg (get_or (s.account_equips x) []) id)
          too_many_collectibles_equiped _ s λ ids pushed. stayed refl

  unequip_collectible-Moved : (id : ℕ) → Post Moved (unequip_collectible cfg (signed a) id s)
  unfolding unequip_collectible
  unequip_collectible-Moved id = Post-ok_or Moved (s.collectibles id) no_collectible _ s λ c e.
      Post-when-lift Moved (not (is_ok (ensure_user_is_lessee a c))) (ensure_user_is_lessor a c) _ s
        (Post-unequip_then Moved a c.collectible_id s (deposit_event (collectible_unequipped a id))
          λ evs. stayed refl)

  rent-Moved :
      (id blocks : ℕ) (recurring : Bool) → Post Moved (rent cfg (signed a) id blocks recurring s)
  rent-Moved id blocks recurring =
      Post-map (Takes cfg s a id blocks recurring) Moved _
        (λ t h.
          let c = h.collectible in
          let r = h.rents in
          let q : RentalPeriodConfig = record {
            rental_periodic_interval = blocks;
            next_rent_block = r.next;
            recurring = recurring;
          } in
          let d = record c { lessee = some a } in
          rw r.left (
            rented id r.price (deal_of id c s.lessee_collectibles) (tenancy a q)
              (view-known s id c h.known) h.not_own (rw h.free refl) r.has_price
              (within-AtLeast c.minimum_rental_period blocks h.long_enough)
              (within-AtMost c.maximum_rental_period blocks h.short_enough) refl
              (deals-put_rental s.collectibles s.lessee_collectibles a id (some d) (some q)
                ∙ ap (λ x. update (view s) id (some x))
                    (deal_of-rental id d s.lessee_collectibles a q refl))))
        (rent-Takes cfg s a id blocks recurring)

  extend_rent-Moved :
      (id blocks : ℕ) → Leased s → Post Moved (extend_rent cfg (signed a) id blocks s)
  extend_rent-Moved id blocks inv =
      Post-map (Prolongs cfg s a id blocks) Moved _
        (λ t h.
          let c = h.collectible in
          let x = h.extends in
          let key : c.collectible_id ≡ id = (inv.fits id c h.known).keyed in
          let who : x.lessee ≡ a = ground (arith, x.has_lessee, h.held) in
          let q = record x.rental { next_rent_block = x.next } in
          rw (x.left, key, who)
            (prolonged id x.next (deal_of id c s.lessee_collectibles) (tenancy a x.rental)
              (view-known s id c h.known) (rw (h.held, rw (key, who) at x.has_rental) refl) refl
              (deals-rental s.collectibles s.lessee_collectibles a id (some q)
                ∙ ap (update (view s) id) (
                    ap (λ o. deal id o (update₂ s.lessee_collectibles a id (some q))) h.known
                    ∙ ap some (deal_of-rental id c s.lessee_collectibles a q h.held)))))
        (extend_rent-Prolongs cfg s a id blocks)

  -- On storage in which the rentals agree, a successful call by the account `a` is a move of that
  -- account on the market that the storage stands for: nothing, the creation of its own collectible,
  -- the destruction, offer or withdrawal of one that it owns, the first two only without a tenant,
  -- the renting of another's that has a price and no tenant, or a change of its own rental.
  pub dispatch-Moved : Leased s → (call : Call) → Post Moved (dispatch cfg call (signed a) s)
  unfolding dispatch
  dispatch-Moved inv Call.mint = mint-Moved
  dispatch-Moved inv (Call.burn id) = burn-Moved id
  dispatch-Moved inv (Call.set_rentable id p m n) = set_rentable-Moved id p m n
  dispatch-Moved inv (Call.rent id b r) = rent-Moved id b r
  dispatch-Moved inv (Call.set_unrentable id) = set_unrentable-Moved id
  dispatch-Moved inv (Call.set_recurring id r) = set_recurring-Moved id r
  dispatch-Moved inv (Call.extend_rent id b) = extend_rent-Moved id b inv
  dispatch-Moved inv (Call.equip_collectible id) = equip_collectible-Moved id
  dispatch-Moved inv (Call.unequip_collectible id) = unequip_collectible-Moved id
