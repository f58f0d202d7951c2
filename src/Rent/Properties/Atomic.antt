-- ===== src/Rent/Properties/Atomic.antt =====
-- What the calls of pallets/rent/src/lib.rs leave in the storage when they return an error, before
-- anything is rolled back.
use pallet_rent.Prelude.{
  ℕ, ◌≡◌, ◌⊎◌, ◌*◌, ◌%◌, inl, inr, refl, Bool, true, not, none, some, [], is_none, leb, get_or,
  update, without,
}
use pallet_rent.Rent.Types.{
  Config, Collectible, State, no_collectible, not_allowed_while_rented,
  minimum_must_be_less_than_maximum, too_many_collectibles, rent_made_available,
  duplicate_collectible, too_many_collectibles_owned, collectible_unequipped,
  too_many_collectibles_equiped, rental_period_too_long,
}
use pallet_rent.Rent.Effects.{DispatchError, module_error, is_ok, deposit_event}
use pallet_rent.Rent.Failures.{
  Fails, Fails-map, Fails-continue, Fails-ok_or, Fails-lift, Fails-ensure, Fails-unwrap,
  Fails-when-lift,
}
use pallet_rent.Rent.Helpers.{
  gen_collectible_id, ensure_user_is_lessor, ensure_user_is_lessee, transfer_funds,
  convert_to_primitive, add_blocks, u32_bound,
}
use pallet_rent.Rent.Helpers.Results.{transfer_funds-cases}
use pallet_rent.Rent.Helpers.Failing.{Fails-unequip, Fails-unequip_then, Fails-append}
use pallet_rent.Rent.Internal.{minted, try_push, do_mint, do_extend_rent}
use pallet_rent.Rent.Calls.{
  signed, mint, burn, set_rentable, rent, set_unrentable, set_recurring, extend_rent, equip_account,
  equip_collectible, unequip_collectible,
}
use pallet_rent.Rent.Properties.Refusals.{Tells, rent-Refused}
use pallet_rent.Rent.Chain.{Call, dispatch}

module _ {L : Type 0} (cfg : Config L) (s : State L) (a : ℕ) where
  -- What an error of a call by `a` leaves. `mint` stores the collectible before it finds that the
  -- account owns too many, and `set_rentable` the terms before it finds that too many are rentable.
  abbrev pub Leaves : Call → DispatchError → State L → Type 0
  Leaves Call.mint x t =
      let id = gen_collectible_id cfg s in
      (t ≡ s)
      ⊎ ((x ≡ module_error too_many_collectibles_owned)
          × (t ≡ record s { collectibles = update s.collectibles id (some (minted id a)) }))
  Leaves (Call.set_rentable id price minimum maximum) x t =
      (t ≡ s)
      ⊎ ((x ≡ module_error too_many_collectibles)
          × (c : Collectible) × (s.collectibles id ≡ some c)
          × (t ≡ record s {
            collectibles = update s.collectibles id (
                some (record c {
                  price_per_block = some price;
                  rentable = true;
                  minimum_rental_period = some minimum;
                  maximum_rental_period = some maximum;
                }));
          }))
  Leaves _ x t = t ≡ s

  abbrev Same : DispatchError → State L → Type 0
  Same x t = t ≡ s

  transfer-Same : (from to amount : ℕ) → Fails Same (transfer_funds cfg from to amount s)
  transfer-Same from to amount = elim (transfer_funds-cases cfg from to amount s) [
    | inl (l, paid) ↦ rw paid tt
    | inr (x, unpaid) ↦ rw unpaid refl
  ]

  mint-Leaves : Fails (Leaves Call.mint) (mint cfg (signed a) s)
  unfolding mint do_mint
  mint-Leaves =
      let Q = Leaves Call.mint in
      let id = gen_collectible_id cfg s in
      let owned = get_or (s.lessor_collectibles a) [] in
      let t = record s { collectibles = update s.collectibles id (some (minted id a)) } in
      Fails-continue Q (do_mint cfg a id s) _
        (Fails-ensure Q (is_none (s.collectibles id)) duplicate_collectible _ s (λ old. inl refl)
          λ new.
            Fails-ok_or Q (try_push cfg owned id) too_many_collectibles_owned _ t
              (λ full. inr (refl, refl)) λ ids pushed. tt)
        λ x v done. tt

  burn-Same : (id : ℕ) → Fails Same (burn cfg (signed a) id s)
  unfolding burn
  burn-Same id =
      Fails-ok_or Same (s.collectibles id) no_collectible _ s (λ lost. refl)
        λ c e.
          Fails-lift Same (ensure_user_is_lessor a c) _ s (λ x other. refl)
            λ u mine.
              Fails-ensure Same (is_none c.lessee) not_allowed_while_rented _ s (λ busy. refl)
                λ free. Fails-unequip Same a c.collectible_id (record s {
                  collectibles = update s.collectibles id none;
                  lessor_collectibles =
                      update s.lessor_collectibles a
                        (some (without id (get_or (s.lessor_collectibles a) [])));
                })

  set_unrentable-Same : (id : ℕ) → Fails Same (set_unrentable cfg (signed a) id s)
  unfolding set_unrentable
  set_unrentable-Same id =
      Fails-ok_or Same (s.collectibles id) no_collectible _ s (λ lost. refl)
        λ c e. Fails-lift Same (ensure_user_is_lessor a c) _ s (λ x other. refl) λ u mine. tt

  set_recurring-Same :
      (id : ℕ) (recurring : Bool) → Fails Same (set_recurring cfg (signed a) id recurring s)
  unfolding set_recurring
  set_recurring-Same id recurring =
      Fails-ok_or Same (s.collectibles id) no_collectible _ s (λ lost. refl)
        λ c e.
          Fails-lift Same (ensure_user_is_lessee a c) _ s (λ x other. refl)
            λ u mine.
              Fails-ok_or Same (s.lessee_collectibles a id) no_collectible _ s (λ lost. refl)
                λ r h. tt

  equip_collectible-Same : (id : ℕ) → Fails Same (equip_collectible cfg (signed a) id s)
  unfolding equip_collectible
  equip_collectible-Same id =
      Fails-ok_or Same (s.collectibles id) no_collectible _ s (λ lost. refl)
        λ c e.
          Fails-lift Same (equip_account a c) _ s (λ x other. refl)
            λ x allowed.
              Fails-ok_or Same (try_push cfg (get_or (s.account_equips x) []) id)
                too_many_collectibles_equiped _ s (λ full. refl) λ ids pushed. tt

  unequip_collectible-Same : (id : ℕ) → Fails Same (unequip_collectible cfg (signed a) id s)
  unfolding unequip_collectible
  unequip_collectible-Same id =
      Fails-ok_or Same (s.collectibles id) no_collectible _ s (λ lost. refl)
        λ c e.
          Fails-when-lift Same (not (is_ok (ensure_user_is_lessee a c))) (ensure_user_is_lessor a c)
            _ s (λ x not_lessee other. refl)
            (Fails-unequip_then Same a c.collectible_id
              (deposit_event (collectible_unequipped a id)) s λ t. tt)

  set_rentable-Leaves :
      (id price minimum maximum : ℕ)
      → Fails
          (Leaves (Call.set_rentable id price minimum maximum))
          (set_rentable cfg (signed a) id price minimum maximum s)
  unfolding set_rentable
  set_rentable-Leaves id price minimum maximum =
      let Q = Leaves (Call.set_rentable id price minimum maximum) in
      Fails-ok_or Q (s.collectibles id) no_collectible _ s (λ lost. inl refl)
        λ c e.
          Fails-lift Q (ensure_user_is_lessor a c) _ s (λ x other. inl refl)
            λ u mine.
              Fails-ensure Q (leb minimum maximum) minimum_must_be_less_than_maximum _ s
                (λ bad. inl refl)
                λ range.
                  Fails-ensure Q (is_none c.lessee) not_allowed_while_rented _ s (λ busy. inl refl)
                    λ free.
                      let d = record c {
                        price_per_block = some price;
                        rentable = true;
                        minimum_rental_period = some minimum;
                        maximum_rental_period = some maximum;
                      } in
                      let t = record s { collectibles = update s.collectibles id (some d) } in
                      Fails-ok_or Q (try_push cfg s.rentable_collectibles id) too_many_collectibles
                        _ t (λ full. inr (refl, c, e, refl))
                        λ rs pushed.
                          Fails-unequip_then Q a c.collectible_id
                            (deposit_event (rent_made_available id price))
                            (record t { rentable_collectibles = rs }) λ v. tt

  extend_rent-Same : (id blocks : ℕ) → Fails Same (extend_rent cfg (signed a) id blocks s)
  unfolding extend_rent do_extend_rent
  extend_rent-Same id blocks =
      Fails-ok_or Same (s.collectibles id) no_collectible _ s (λ lost. refl)
        λ c e.
          Fails-lift Same (ensure_user_is_lessee a c) _ s (λ x other. refl)
            λ u held. Fails-unwrap Same c.lessee _ s λ b has_lessee.
              Fails-ok_or Same (s.lessee_collectibles b c.collectible_id) no_collectible _ s
                (λ lost. refl)
                λ r has_rental. Fails-unwrap Same c.maximum_rental_period _ s λ maximum has_maximum.
                  Fails-ensure Same (leb (add_blocks cfg blocks r.next_rent_block) maximum)
                    rental_period_too_long _ s (λ long. refl)
                    λ short.
                      Fails-lift Same (convert_to_primitive blocks) _ s (λ x big. refl)
                        λ n small. Fails-unwrap Same c.price_per_block _ s λ price has_price.
                          Fails-lift Same (convert_to_primitive price) _ s (λ x big. refl)
                            λ m cheap.
                              Fails-continue Same
                                (transfer_funds cfg b c.lessor (n * m % u32_bound) s) _
                                (transfer-Same b c.lessor (n * m % u32_bound))
                                λ v t paid.
                                  Fails-continue Same _ _
                                    (Fails-append Same cfg _ n c.collectible_id b _)
                                    λ w k appended. tt

  rent-Same :
      (id blocks : ℕ) (recurring : Bool) → Fails Same (rent cfg (signed a) id blocks recurring s)
  rent-Same id blocks recurring =
      Fails-map (Tells cfg s a id blocks) Same (rent cfg (signed a) id blocks recurring s)
        (λ x t h. h.0) (rent-Refused cfg s a id blocks recurring)

  -- A call by `a` that returns an error has changed nothing in the storage, but for two cases: a
  -- `mint` that finds that the account owns too many has stored the new collectible, and a
  -- `set_rentable` that finds that too many are rentable has stored the new terms.
  pub dispatch-Leaves : (call : Call) → Fails (Leaves call) (dispatch cfg call (signed a) s)
  unfolding dispatch
  dispatch-Leaves Call.mint = mint-Leaves
  dispatch-Leaves (Call.burn id) = burn-Same id
  dispatch-Leaves (Call.set_rentable id p m n) = set_rentable-Leaves id p m n
  dispatch-Leaves (Call.rent id b r) = rent-Same id b r
  dispatch-Leaves (Call.set_unrentable id) = set_unrentable-Same id
  dispatch-Leaves (Call.set_recurring id r) = set_recurring-Same id r
  dispatch-Leaves (Call.extend_rent id b) = extend_rent-Same id b
  dispatch-Leaves (Call.equip_collectible id) = equip_collectible-Same id
  dispatch-Leaves (Call.unequip_collectible id) = unequip_collectible-Same id
