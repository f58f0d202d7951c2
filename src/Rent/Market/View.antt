-- ===== src/Rent/Market/View.antt =====
-- The market that the storage of pallets/rent/src/lib.rs stands for.
use mathlib.Core.Path.{fun_ext}
use pallet_rent.Prelude.{
  ℕ, ◌≡◌, inl, inr, refl, false, Option, none, some, arith, update, update₂, ◌==◌, Bool-cases,
  ==_eq,
}
use pallet_rent.Rent.Types.{Collectible, RentalPeriodConfig, State}
use pallet_rent.Rent.Market.{Tenant, Deal, Market}

abbrev pub Rentals : Type 0
Rentals = ℕ → ℕ → Option RentalPeriodConfig

abbrev pub tenancy : ℕ → RentalPeriodConfig → Tenant
tenancy a r = record {
  lessee = a;
  interval = r.rental_periodic_interval;
  due = r.next_rent_block;
  recurring = r.recurring;
}

abbrev pub tenant_of : ℕ → Option RentalPeriodConfig → Option Tenant
tenant_of a none = none
tenant_of a (some r) = some (tenancy a r)

abbrev pub tenant : ℕ → Option ℕ → Rentals → Option Tenant
tenant id none ls = none
tenant id (some a) ls = tenant_of a (ls a id)

abbrev pub deal_of : ℕ → Collectible → Rentals → Deal
deal_of id c ls = record {
  lessor = c.lessor;
  price = c.price_per_block;
  minimum = c.minimum_rental_period;
  maximum = c.maximum_rental_period;
  offered = c.rentable;
  tenant = tenant id c.lessee ls;
}

abbrev pub deal : ℕ → Option Collectible → Rentals → Option Deal
deal id none ls = none
deal id (some c) ls = some (deal_of id c ls)

abbrev pub deals : (ℕ → Option Collectible) → Rentals → Market
deals cs ls id = deal id (cs id) ls

abbrev pub view : {L : Type 0} → State L → Market
view s = deals s.collectibles s.lessee_collectibles

pub view-known :
    {L : Type 0} (s : State L) (id : ℕ) (c : Collectible)
    → s.collectibles id ≡ some c
    → view s id ≡ some (deal_of id c s.lessee_collectibles)
view-known s id c e = rw e refl

-- A collectible is written.
pub deals-put :
    (cs : ℕ → Option Collectible) (ls : Rentals) (id : ℕ) (o : Option Collectible)
    → deals (update cs id o) ls ≡ update (deals cs ls) id (deal id o ls)
deals-put cs ls id o = fun_ext λ j. elim (Bool-cases (id == j)) [
  | inl hit ↦ rw (hit, ==_eq id j hit) refl
  | inr miss ↦ rw miss refl
]

deal-elsewhere :
    (o : Option Collectible) (ls : Rentals) (a id j : ℕ) (r : Option RentalPeriodConfig)
    → (id == j) ≡ false
    → deal j o (update₂ ls a id r) ≡ deal j o ls
deal-elsewhere none ls a id j r miss = refl
deal-elsewhere (some c) ls a id j r miss = ground (arith, miss)

-- A collectible and the configuration of an account for it are written.
pub deals-put_rental :
    (cs : ℕ → Option Collectible) (ls : Rentals) (a id : ℕ) (o : Option Collectible)
    (r : Option RentalPeriodConfig)
    → deals (update cs id o) (update₂ ls a id r)
      ≡ update (deals cs ls) id (deal id o (update₂ ls a id r))
deals-put_rental cs ls a id o r = fun_ext λ j. elim (Bool-cases (id == j)) [
  | inl hit ↦ rw (hit, ==_eq id j hit) refl
  | inr miss ↦ rw miss (deal-elsewhere (cs j) ls a id j r miss)
]

-- The configuration of an account for a collectible is written.
pub deals-rental :
    (cs : ℕ → Option Collectible) (ls : Rentals) (a id : ℕ) (r : Option RentalPeriodConfig)
    → deals cs (update₂ ls a id r) ≡ update (deals cs ls) id (deal id (cs id) (update₂ ls a id r))
deals-rental cs ls a id r = fun_ext λ j. elim (Bool-cases (id == j)) [
  | inl hit ↦ rw (hit, ==_eq id j hit) refl
  | inr miss ↦ rw miss (deal-elsewhere (cs j) ls a id j r miss)
]

-- The deal of a collectible whose lessee's configuration is written.
pub deal_of-rental :
    (id : ℕ) (c : Collectible) (ls : Rentals) (a : ℕ) (r : RentalPeriodConfig)
    → c.lessee ≡ some a
    → deal_of id c (update₂ ls a id (some r))
      ≡ record (deal_of id c ls) { tenant = some (tenancy a r) }
deal_of-rental id c ls a r held = ground (arith, held)
