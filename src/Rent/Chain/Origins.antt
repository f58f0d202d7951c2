-- ===== src/Rent/Chain/Origins.antt =====
-- Calls of pallets/rent/src/lib.rs that no account has signed.
use pallet_rent.Prelude.{◌≡◌, refl, false}
use pallet_rent.Rent.Types.{Config, State}
use pallet_rent.Rent.Effects.{err, bad_origin, is_ok}
use pallet_rent.Rent.Calls.{Origin, ensure_signed, root, signed, unsigned, on_initialize}
use pallet_rent.Rent.Calls
use pallet_rent.Rent.Chain.{Call, dispatch}

module _ {L : Type 0} (cfg : Config L) where
  -- A call that no account has signed returns `BadOrigin` and leaves the storage.
  pub unsigned_refused :
      (call : Call) (origin : Origin) (s : State L)
      → is_ok (ensure_signed origin) ≡ false
      → dispatch cfg call origin s ≡ (err bad_origin, s)
  unfolding dispatch Calls.mint Calls.burn Calls.set_rentable Calls.rent Calls.set_unrentable
      Calls.set_recurring Calls.extend_rent Calls.equip_collectible Calls.unequip_collectible
  unsigned_refused call (signed a) s h = cc
  unsigned_refused Call.mint root s h = refl
  unsigned_refused (Call.burn id) root s h = refl
  unsigned_refused (Call.set_rentable id p m n) root s h = refl
  unsigned_refused (Call.rent id b r) root s h = refl
  unsigned_refused (Call.set_unrentable id) root s h = refl
  unsigned_refused (Call.set_recurring id r) root s h = refl
  unsigned_refused (Call.extend_rent id b) root s h = refl
  unsigned_refused (Call.equip_collectible id) root s h = refl
  unsigned_refused (Call.unequip_collectible id) root s h = refl
  unsigned_refused Call.mint unsigned s h = refl
  unsigned_refused (Call.burn id) unsigned s h = refl
  unsigned_refused (Call.set_rentable id p m n) unsigned s h = refl
  unsigned_refused (Call.rent id b r) unsigned s h = refl
  unsigned_refused (Call.set_unrentable id) unsigned s h = refl
  unsigned_refused (Call.set_recurring id r) unsigned s h = refl
  unsigned_refused (Call.extend_rent id b) unsigned s h = refl
  unsigned_refused (Call.equip_collectible id) unsigned s h = refl
  unsigned_refused (Call.unequip_collectible id) unsigned s h = refl
