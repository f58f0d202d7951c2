-- ===== src/Rent/Properties/Authority.antt =====
-- Who may change a collectible by the calls of pallets/rent/src/lib.rs.
use pallet_rent.Prelude.{
  ℕ, ◌≡◌, ◌≢◌, ◌⊎◌, inl, inr, Bool, true, none, some, not, arith, is_none, leb, get_or, update,
  without, ◌==◌, Bool-cases, ap, [],
}
use pallet_rent.Rent.Types.{
  Config, Collectible, State, no_collectible, not_allowed_while_rented,
  minimum_must_be_less_than_maximum, too_many_collectibles, rent_made_available,
  duplicate_collectible, too_many_collectibles_owned, collectible_unequipped,
  too_many_collectibles_equiped,
}
use pallet_rent.Rent.Effects.{is_ok, deposit_event}
use pallet_rent.Rent.Rules.{
  Post, Post-ok_or, Post-lift, Post-ensure, Post-continue, Post-elim, Post-when-lift, Post-map,
}
use pallet_rent.Rent.Helpers.{gen_collectible_id, ensure_user_is_lessor, ensure_user_is_lessee}
use pallet_rent.Rent.Helpers.Results.{Post-unequip, Post-unequip_then}
use pallet_rent.Rent.Internal.{minted, try_push, do_mint}
use pallet_rent.Rent.Calls.{
  signed, mint, burn, set_rentable, rent, set_unrentable, set_recurring, extend_rent, equip_account,
  equip_collectible, unequip_collectible,
}
use pallet_rent.Rent.Calls.Renting.{Takes, rent-Takes, Prolongs, extend_rent-Prolongs}
use pallet_rent.Rent.Chain.{Call, dispatch}

module _ {L : Type 0} (cfg : Config L) (s : State L) (a j : ℕ) (c : Collectible)
    (stored : s.collectibles j ≡ some c) (foreign : c.lessor ≢ a) where
  -- The collectible is as it was, or it had no lessee and has the account as its lessee now.
  abbrev pub Spared : State L → Type 0
  Spared t =
      (t.collectibles j ≡ some c)
      ⊎ ((c.lessee ≡ none) × (t.collectibles j ≡ some (record c { lessee = some a })))

  mine_differs :
      (id : ℕ) (d : Collectible) → s.collectibles id ≡ some d → (d.lessor == a) ≡ true → id ≢ j
  mine_differs id d e own same = foreign (ground (arith, rw same at e, stored))

  mint-Spared : Post Spared (mint cfg (signed a) s)
  unfolding mint do_mint
  mint-Spared =
      let id = gen_collectible_id cfg s in
      let owned = get_or (s.lessor_collectibles a) [] in
      let t = record s { collectibles = update s.collectibles id (some (minted id a)) } in
      Post-continue Spared (do_mint cfg a id s) _ λ x v done.
        Post-elim Spared (do_mint cfg a id s) x v
          (Post-ensure Spared (is_none (s.collectibles id)) duplicate_collectible _ s λ new.
            Post-ok_or Spared (try_push cfg owned id) too_many_collectibles_owned _ t
              λ ids pushed. inl (ground arith))
          done

  burn-Spared : (id : ℕ) → Post Spared (burn cfg (signed a) id s)
  unfolding burn ensure_user_is_lessor
  burn-Spared id =
      let t = record s {
        collectibles = update s.collectibles id none;
        lessor_collectibles =
            update s.lessor_collectibles a
              (some (without id (get_or (s.lessor_collectibles a) [])));
      } in
      Post-ok_or Spared (s.collectibles id) no_collectible _ s λ d e.
        Post-lift Spared (ensure_user_is_lessor a d) _ s λ u mine.
          Post-ensure Spared (is_none d.lessee) not_allowed_while_rented _ s λ free.
            Post-unequip Spared a d.collectible_id t
              λ evs. inl (ground (arith, mine_differs id d e (ground arith)))

  set_rentable-Spared :
      (id price minimum maximum : ℕ)
      → Post Spared (set_rentable cfg (signed a) id price minimum maximum s)
  unfolding set_rentable ensure_user_is_lessor
  set_rentable-Spared id price minimum maximum =
      Post-ok_or Spared (s.collectibles id) no_collectible _ s λ d e.
        Post-lift Spared (ensure_user_is_lessor a d) _ s λ u mine.
          Post-ensure Spared (leb minimum maximum) minimum_must_be_less_than_maximum _ s λ range.
            Post-ensure Spared (is_none d.lessee) not_allowed_while_rented _ s λ free.
              let offered = record d {
                price_per_block = some price;
                rentable = true;
                minimum_rental_period = some minimum;
                maximum_rental_period = some maximum;
              } in
              let t = record s { collectibles = update s.collectibles id (some offered) } in
              Post-ok_or Spared (try_push cfg s.rentable_collectibles id) too_many_collectibles _ t
                λ rs pushed.
                  Post-unequip_then Spared a d.collectible_id
                    (record t { rentable_collectibles = rs })
                    (deposit_event (rent_made_available id price))
                    λ evs. inl (ground (arith, mine_differs id d e (ground arith)))

  set_unrentable-Spared : (id : ℕ) → Post Spared (set_unrentable cfg (signed a) id s)
  unfolding set_unrentable ensure_user_is_lessor
  set_unrentable-Spared id = Post-ok_or Spared (s.collectibles id) no_collectible _ s λ d e.
      Post-lift Spared (ensure_user_is_lessor a d) _ s
        λ u mine. inl (ground (arith, mine_differs id d e (ground arith)))

  set_recurring-Spared :
      (id : ℕ) (recurring : Bool) → Post Spared (set_recurring cfg (signed a) id recurring s)
  unfolding set_recurring
  set_recurring-Spared id recurring =
      Post-ok_or Spared (s.collectibles id) no_collectible _ s λ d e.
        Post-lift Spared (ensure_user_is_lessee a d) _ s λ u mine.
          Post-ok_or Spared (s.lessee_collectibles a id) no_collectible _ s
            λ r h. inl (ground arith)

  equip_collectible-Spared : (id : ℕ) → Post Spared (equip_collectible cfg (signed a) id s)
  unfolding equip_collectible
  equip_collectible-Spared id = Post-ok_or Spared (s.collectibles id) no_collectible _ s λ d e.
      Post-lift Spared (equip_account a d) _ s λ x allowed.
        Post-ok_or Spared (try_push cfg (get_or (s.account_equips x) []) id)
          too_many_collectibles_equiped _ s λ ids pushed. inl stored

  unequip_collectible-Spared : (id : ℕ) → Post Spared (unequip_collectible cfg (signed a) id s)
  unfolding unequip_collectible
  unequip_collectible-Spared id = Post-ok_or Spared (s.collectibles id) no_collectible _ s λ d e.
      Post-when-lift Spared (not (is_ok (ensure_user_is_lessee a d))) (ensure_user_is_lessor a d) _
        s
        (Post-unequip_then Spared a d.collectible_id s (deposit_event (collectible_unequipped a id))
          λ evs. inl stored)

  rent-Spared :
      (id blocks : ℕ) (recurring : Bool) → Post Spared (rent cfg (signed a) id blocks recurring s)
  rent-Spared id blocks recurring =
      Post-map (Takes cfg s a id blocks recurring) Spared _
        (λ t h. rw h.rents.left (elim (Bool-cases (id == j)) [
          | inl same ↦
              let is : h.collectible ≡ c = ground (arith, h.known) in
              inr (
                ground (arith, is, h.free),
                ground (arith, ap (λ (x : Collectible). record x { lessee = some a }) is),
              )
          | inr other ↦ inl (ground arith)
        ]))
        (rent-Takes cfg s a id blocks recurring)

  extend_rent-Spared : (id blocks : ℕ) → Post Spared (extend_rent cfg (signed a) id blocks s)
  extend_rent-Spared id blocks =
      Post-map (Prolongs cfg s a id blocks) Spared _ (λ t h. rw h.extends.left (inl stored))
        (extend_rent-Prolongs cfg s a id blocks)

  -- A successful call by the account `a` leaves a collectible of another lessor as it was, unless it
  -- had no lessee: then the account may have become its lessee, and nothing else of it has changed.
  pub dispatch-Spared : (call : Call) → Post Spared (dispatch cfg call (signed a) s)
  unfolding dispatch
  dispatch-Spared Call.mint = mint-Spared
  dispatch-Spared (Call.burn id) = burn-Spared id
  dispatch-Spared (Call.set_rentable id p m n) = set_rentable-Spared id p m n
  dispatch-Spared (Call.rent id b r) = rent-Spared id b r
  dispatch-Spared (Call.set_unrentable id) = set_unrentable-Spared id
  dispatch-Spared (Call.set_recurring id r) = set_recurring-Spared id r
  dispatch-Spared (Call.extend_rent id b) = extend_rent-Spared id b
  dispatch-Spared (Call.equip_collectible id) = equip_collectible-Spared id
  dispatch-Spared (Call.unequip_collectible id) = unequip_collectible-Spared id
