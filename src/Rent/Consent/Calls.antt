-- ===== src/Rent/Consent/Calls.antt =====
-- The calls of pallets/rent/src/lib.rs take nothing from other accounts.
use pallet_rent.Prelude.{ℕ, ◌≡◌, ◌≢◌, refl, Bool, false, Option, arith, update₂}
use pallet_rent.Rent.Types.{Config, RentalPeriodConfig, State, no_collectible}
use pallet_rent.Rent.Rules.{Post, Post-ok_or, Post-lift, Post-map}
use pallet_rent.Rent.Helpers.{ensure_user_is_lessee}
use pallet_rent.Rent.Calls.{signed, rent, set_recurring, extend_rent}
use pallet_rent.Rent.Calls.Renting.{Takes, rent-Takes, Prolongs, extend_rent-Prolongs}
use pallet_rent.Rent.Chain.{Call, dispatch}
use pallet_rent.Rent.Chain.SameRentals.{SameRentals, changes_rentals, dispatch-SameRentals}
use pallet_rent.Rent.Properties.Payment.{CurrencyLaws}
use pallet_rent.Rent.Consent.{Once, Spares, transfer-spares}

-- A rental of another account is written.
pub other-Once :
    (x a id : ℕ) (rentals : ℕ → ℕ → Option RentalPeriodConfig) (o : Option RentalPeriodConfig)
    → a ≢ x
    → Once x rentals
    → Once x (update₂ rentals a id o)
other-Once x a id rentals o other once j r e = once j r (ground (arith, other, e))

module _ {L : Type 0} (cfg : Config L) (laws : CurrencyLaws cfg) (x a : ℕ) (other : a ≢ x)
    (s : State L) (once : Once x s.lessee_collectibles) where
  quiet-Spares :
      (call : Call)
      → changes_rentals call ≡ false
      → Post (Spares cfg x s) (dispatch cfg call (signed a) s)
  quiet-Spares call quiet =
      Post-map (SameRentals s) (Spares cfg x s) (dispatch cfg call (signed a) s)
        (λ t same. record {
          not_less = rw same.balances (omega arith);
          once = rw same.rentals once;
        })
        (dispatch-SameRentals cfg s a call quiet)

  rent-Spares :
      (id blocks : ℕ) (recurring : Bool)
      → Post (Spares cfg x s) (rent cfg (signed a) id blocks recurring s)
  rent-Spares id blocks recurring =
      Post-map (Takes cfg s a id blocks recurring) (Spares cfg x s) _
        (λ t h.
          let r = h.rents in
          rw r.left (record {
            not_less = transfer-spares cfg laws s.balances r.paid a _ _ x other r.transferred;
            once = other-Once x a id s.lessee_collectibles _ other once;
          }))
        (rent-Takes cfg s a id blocks recurring)

  extend_rent-Spares :
      (id blocks : ℕ) → Post (Spares cfg x s) (extend_rent cfg (signed a) id blocks s)
  extend_rent-Spares id blocks =
      Post-map (Prolongs cfg s a id blocks) (Spares cfg x s) _
        (λ t h.
          let e = h.extends in
          let same : e.lessee ≡ a = ground (arith, e.has_lessee, h.held) in
          let stranger : e.lessee ≢ x = rw same other in
          rw e.left (record {
            not_less =
                transfer-spares cfg laws s.balances e.paid e.lessee _ _ x stranger e.transferred;
            once = other-Once x e.lessee _ s.lessee_collectibles _ stranger once;
          }))
        (extend_rent-Prolongs cfg s a id blocks)

  set_recurring-Spares :
      (id : ℕ) (recurring : Bool)
      → Post (Spares cfg x s) (set_recurring cfg (signed a) id recurring s)
  unfolding set_recurring
  set_recurring-Spares id recurring = Post-ok_or _ (s.collectibles id) no_collectible _ s λ c e.
      Post-lift _ (ensure_user_is_lessee a c) _ s λ u mine.
        Post-ok_or _ (s.lessee_collectibles a id) no_collectible _ s λ r h. record {
          not_less = omega arith;
          once = other-Once x a id s.lessee_collectibles _ other once;
        }

  -- A call by another account.
  pub dispatch-Spares : (call : Call) → Post (Spares cfg x s) (dispatch cfg call (signed a) s)
  unfolding dispatch
  dispatch-Spares (Call.rent id b r) = rent-Spares id b r
  dispatch-Spares (Call.set_recurring id r) = set_recurring-Spares id r
  dispatch-Spares (Call.extend_rent id b) = extend_rent-Spares id b
  dispatch-Spares Call.mint = quiet-Spares Call.mint refl
  dispatch-Spares (Call.burn id) = quiet-Spares (Call.burn id) refl
  dispatch-Spares (Call.set_rentable id p m n) = quiet-Spares (Call.set_rentable id p m n) refl
  dispatch-Spares (Call.set_unrentable id) = quiet-Spares (Call.set_unrentable id) refl
  dispatch-Spares (Call.equip_collectible id) = quiet-Spares (Call.equip_collectible id) refl
  dispatch-Spares (Call.unequip_collectible id) = quiet-Spares (Call.unequip_collectible id) refl
