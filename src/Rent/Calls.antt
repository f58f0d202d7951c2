-- ===== src/Rent/Calls.antt =====
-- The dispatchable functions of pallets/rent/src/lib.rs and its `on_initialize` hook.
pub mod Renting
use pallet_rent.Prelude.{
  ℕ, Bool, true, false, not, Option, none, some, [], if◌then◌else◌, leb, ◌==◌, is_none, eq_option,
  get_or, without, update, update₂,
}
use pallet_rent.Rent.Types.{
  Config, Collectible, rent_made_available, rent_made_unavailable, rental_set_recurring,
  collectible_equipped, collectible_unequipped, already_rented, no_collectible,
  too_many_collectibles, rent_not_available, cannot_rent_own_collectible, rental_period_too_short,
  rental_period_too_long, not_allowed_while_rented, too_many_collectibles_equiped,
  minimum_must_be_less_than_maximum, no_account_found_for_collectible,
}
use pallet_rent.Rent.Effects.{
  bad_origin, module_error, Outcome, ok, err, panic, endless, is_ok, M, pure, lift, ok_or, ensure,
  gets, modify, deposit_event, when, ◌>>=◌, ◌>>◌,
}
use pallet_rent.Rent.Helpers.{
  ensure_user_is_lessee, ensure_user_is_lessor, fetch_collectible, unequip_collectible_from_account,
  gen_collectible_id,
}
use pallet_rent.Rent.Internal.{
  try_push, do_mint, do_rent_collectible, do_extend_rent, do_process_rental_periods,
}

-- `OriginFor<T>`
pub data Origin : Type 0 where
  root : Origin
  signed : ℕ → Origin
  unsigned : Origin

-- `ensure_signed`
abbrev pub ensure_signed : Origin → Outcome ℕ
ensure_signed (signed account) = ok account
ensure_signed root = err bad_origin
ensure_signed unsigned = err bad_origin

-- A bound that is checked where it is set.
abbrev pub within : (ℕ → Bool) → Option ℕ → Bool
within test none = true
within test (some bound) = test bound

abbrev and_then : Outcome (Unit {0}) → ℕ → Outcome ℕ
and_then (ok _) account = ok account
and_then (err e) account = err e
and_then panic account = panic
and_then endless account = endless

-- The account that `equip_collectible` writes to.
unfoldable pub equip_account : ℕ → Collectible → Outcome ℕ
unfolding ensure_user_is_lessor ensure_user_is_lessee
equip_account sender collectible =
    if is_ok (ensure_user_is_lessor sender collectible)
    then (if collectible.rentable
        then err (module_error not_allowed_while_rented)
        else ok collectible.lessor)
    else (elim collectible.lessee [
      | some lessee ↦ and_then (ensure_user_is_lessee sender collectible) lessee
      | none ↦ err (module_error no_account_found_for_collectible)
    ])

module _ {L : Type 0} (cfg : Config L) where
  -- `mint`
  unfoldable pub mint : Origin → M L (Unit {0})
  unfolding do_mint gen_collectible_id
  mint origin = do
    sender ← lift (ensure_signed origin)
    id ← gets (gen_collectible_id cfg)
    _ ← do_mint cfg sender id
    pure tt

  -- `burn`
  unfoldable pub burn : Origin → ℕ → M L (Unit {0})
  unfolding fetch_collectible ensure_user_is_lessor unequip_collectible_from_account
  burn origin id = do
    sender ← lift (ensure_signed origin)
    collectible ← fetch_collectible id
    lift (ensure_user_is_lessor sender collectible)
    ensure (is_none collectible.lessee) not_allowed_while_rented
    modify λ s. record s { collectibles = update s.collectibles id none }
    owned ← gets λ s. get_or (s.lessor_collectibles sender) []
    modify λ s. record s {
      lessor_collectibles = update s.lessor_collectibles sender (some (without id owned));
    }
    unequip_collectible_from_account sender collectible.collectible_id

  -- `set_rentable`
  unfoldable pub set_rentable : Origin → ℕ → ℕ → ℕ → ℕ → M L (Unit {0})
  unfolding fetch_collectible ensure_user_is_lessor unequip_collectible_from_account
  set_rentable origin id price minimum maximum = do
    sender ← lift (ensure_signed origin)
    collectible ← fetch_collectible id
    lift (ensure_user_is_lessor sender collectible)
    ensure (leb minimum maximum) minimum_must_be_less_than_maximum
    ensure (is_none collectible.lessee) not_allowed_while_rented
    let offered = record collectible {
      price_per_block = some price;
      rentable = true;
      minimum_rental_period = some minimum;
      maximum_rental_period = some maximum;
    }
    modify λ s. record s { collectibles = update s.collectibles id (some offered) }
    rentables ← gets λ s. s.rentable_collectibles
    rentables ← ok_or (try_push cfg rentables id) too_many_collectibles
    modify λ s. record s { rentable_collectibles = rentables }
    unequip_collectible_from_account sender offered.collectible_id
    deposit_event (rent_made_available id price)

  -- `rent`
  unfoldable pub rent : Origin → ℕ → ℕ → Bool → M L (Unit {0})
  unfolding fetch_collectible
  rent origin id blocks recurring = do
    sender ← lift (ensure_signed origin)
    collectible ← fetch_collectible id
    ensure (within (λ minimum. leb minimum blocks) collectible.minimum_rental_period)
        rental_period_too_short
    ensure (within (λ maximum. leb blocks maximum) collectible.maximum_rental_period)
        rental_period_too_long
    ensure (not (collectible.lessor == sender)) cannot_rent_own_collectible
    ensure (is_none collectible.lessee) rent_not_available
    ensure (not (eq_option collectible.lessee (some sender))) already_rented
    do_rent_collectible cfg id sender blocks recurring

  -- `set_unrentable`
  unfoldable pub set_unrentable : Origin → ℕ → M L (Unit {0})
  unfolding fetch_collectible ensure_user_is_lessor
  set_unrentable origin id = do
    sender ← lift (ensure_signed origin)
    collectible ← fetch_collectible id
    lift (ensure_user_is_lessor sender collectible)
    modify λ s. record s {
      collectibles = update s.collectibles id (some (record collectible { rentable = false }));
    }
    modify λ s. record s { rentable_collectibles = without id s.rentable_collectibles }
    deposit_event (rent_made_unavailable id)

  -- `set_recurring`
  unfoldable pub set_recurring : Origin → ℕ → Bool → M L (Unit {0})
  unfolding fetch_collectible ensure_user_is_lessee
  set_recurring origin id recurring = do
    sender ← lift (ensure_signed origin)
    collectible ← fetch_collectible id
    lift (ensure_user_is_lessee sender collectible)
    rental ← gets λ s. s.lessee_collectibles sender id
    rental ← ok_or rental no_collectible
    modify λ s. record s {
      lessee_collectibles =
          update₂ s.lessee_collectibles sender id (some (record rental { recurring = recurring }));
    }
    modify λ s. record s { collectibles = update s.collectibles id (some collectible) }
    deposit_event (rental_set_recurring id recurring)

  -- `extend_rent`
  unfoldable pub extend_rent : Origin → ℕ → ℕ → M L (Unit {0})
  unfolding fetch_collectible ensure_user_is_lessee
  extend_rent origin id blocks = do
    sender ← lift (ensure_signed origin)
    collectible ← fetch_collectible id
    lift (ensure_user_is_lessee sender collectible)
    do_extend_rent cfg collectible blocks

  -- `equip_collectible`
  unfoldable pub equip_collectible : Origin → ℕ → M L (Unit {0})
  unfolding fetch_collectible equip_account
  equip_collectible origin id = do
    sender ← lift (ensure_signed origin)
    collectible ← fetch_collectible id
    account ← lift (equip_account sender collectible)
    equiped ← gets λ s. get_or (s.account_equips account) []
    equiped ← ok_or (try_push cfg equiped id) too_many_collectibles_equiped
    modify λ s. record s { account_equips = update s.account_equips account (some equiped) }
    deposit_event (collectible_equipped sender id)

  -- `unequip_collectible`
  unfoldable pub unequip_collectible : Origin → ℕ → M L (Unit {0})
  unfolding fetch_collectible ensure_user_is_lessee ensure_user_is_lessor
      unequip_collectible_from_account
  unequip_collectible origin id = do
    sender ← lift (ensure_signed origin)
    collectible ← fetch_collectible id
    when (not (is_ok (ensure_user_is_lessee sender collectible)))
        (lift (ensure_user_is_lessor sender collectible))
    unequip_collectible_from_account sender collectible.collectible_id
    deposit_event (collectible_unequipped sender id)

  -- The hook `on_initialize`, less the weight that it returns.
  unfoldable pub on_initialize : ℕ → M L (Unit {0})
  on_initialize n = do_process_rental_periods cfg n
