-- ===== src/Rent/Verdict/Calls.antt =====
-- The calls of pallets/rent/src/lib.rs return what their checks say.
use pallet_rent.Prelude.{
  ℕ, ◌≡◌, refl, true, false, none, some, [], ◌∷◌, ◌++◌, ltb, is_none, without, update, get_or,
  length, inl, inr, Bool-cases,
}
use pallet_rent.Rent.Types.{
  Config, State, rent_made_available, collectible_unequipped, no_collectible,
}
use pallet_rent.Rent.Helpers.{gen_collectible_id, ensure_user_is_lessor, ensure_user_is_lessee}
use pallet_rent.Rent.Internal.{do_mint}
use pallet_rent.Rent.Calls.{
  signed, mint, burn, set_rentable, set_unrentable, set_recurring, equip_collectible,
  unequip_collectible,
}
use pallet_rent.Rent.Chain.{Call, dispatch}
use pallet_rent.Rent.Verdict.{verdict_of, without_value, checks, moves_funds}
use pallet_rent.Rent.Verdict.Rules.{
  Judged, Judged-ensure, Judged-found, Judged-push, Judged-lessor, Judged-lessee,
  Judged-equip_account, Judged-allowed, Judged-unequip, Judged-unequip_then,
}

module _ {L : Type 0} (cfg : Config L) (s : State L) (a : ℕ) where
  call-Judged :
      (call : Call)
      → moves_funds call ≡ false
      → Judged (checks cfg s a call) (dispatch cfg call (signed a) s)
  unfolding dispatch mint do_mint burn set_rentable set_unrentable set_recurring equip_collectible
      unequip_collectible ensure_user_is_lessor ensure_user_is_lessee
  call-Judged Call.mint still =
      let id = gen_collectible_id cfg s in
      record {
        judged = elim (Bool-cases (is_none (s.collectibles id))) [
          | inl new ↦
              elim (Bool-cases
                (ltb (length (get_or (s.lessor_collectibles a) [])) cfg.maximum_owned)) [
                  | inl room ↦ rw (new, room) refl
                  | inr full ↦ rw (new, full) refl
                ]
          | inr old ↦ rw old refl
        ];
      }
  call-Judged (Call.burn id) still =
      Judged-found (s.collectibles id) no_collectible _ _ s λ c known. Judged-lessor a c _ _ s (
        Judged-ensure _ _ _ _ s λ free. Judged-unequip a c.collectible_id (record s {
          collectibles = update s.collectibles id none;
          lessor_collectibles =
              update s.lessor_collectibles a
                (some (without id (get_or (s.lessor_collectibles a) [])));
        }))
  call-Judged (Call.set_rentable id price minimum maximum) still =
      Judged-found (s.collectibles id) no_collectible _ _ s λ c known. Judged-lessor a c _ _ s (
        Judged-ensure _ _ _ _ s λ range. Judged-ensure _ _ _ _ s λ free.
          Judged-push cfg s.rentable_collectibles id _ [] _ _ (
            Judged-unequip_then a c.collectible_id (rent_made_available id price) (record s {
              collectibles = update s.collectibles id (
                  some (record c {
                    price_per_block = some price;
                    rentable = true;
                    minimum_rental_period = some minimum;
                    maximum_rental_period = some maximum;
                  }));
              rentable_collectibles = s.rentable_collectibles ++ id ∷ [];
            })))
  call-Judged (Call.set_unrentable id) still =
      Judged-found (s.collectibles id) no_collectible _ _ s
        λ c known. Judged-lessor a c [] _ s (record { judged = refl })
  call-Judged (Call.set_recurring id recurring) still =
      Judged-found (s.collectibles id) no_collectible _ _ s λ c known. Judged-lessee a c _ _ s (
        Judged-found (s.lessee_collectibles a id) no_collectible _ _ s
          λ r held. record { judged = refl })
  call-Judged (Call.equip_collectible id) still =
      Judged-found (s.collectibles id) no_collectible _ _ s λ c known.
        Judged-equip_account a c _ _ s
          (Judged-push cfg (get_or (s.account_equips a) []) id _ [] _ s (record { judged = refl }))
  call-Judged (Call.unequip_collectible id) still =
      Judged-found (s.collectibles id) no_collectible _ _ s λ c known.
        Judged-allowed a c _ _ s
          (Judged-unequip_then a c.collectible_id (collectible_unequipped a id) s)
  call-Judged (Call.rent id blocks recurring) still = cc
  call-Judged (Call.extend_rent id blocks) still = cc

  -- Every call by a signed account, other than `rent` and `extend_rent`, returns: without an error if
  -- all of its checks hold, and else with the error of the first that does not, in the order in
  -- which the checks are listed for the call.
  pub dispatch-Judged :
      (call : Call)
      → moves_funds call ≡ false
      → without_value (dispatch cfg call (signed a) s).0 ≡ verdict_of (checks cfg s a call)
  dispatch-Judged call still = (call-Judged call still).judged
