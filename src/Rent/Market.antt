-- ===== src/Rent/Market.antt =====
-- What the rent pallet promises, without how it stores it: who owns and who rents each collectible,
-- on what terms, and who may change that. Rent/Market/Calls and Rent/Market/Blocks show that
-- pallets/rent/src/lib.rs does what is said here.
pub mod View
pub mod Calls
pub mod Blocks
pub mod Lasting
pub mod Tenure
use pallet_rent.Prelude.{ℕ, ◌≤◌, ◌≡◌, ◌≢◌, Bool, true, false, Option, none, some, update}

-- A rental: by whom, how many blocks a period has, the block that ends or renews it.
pub record Tenant : Type 0 where
  pub lessee : ℕ
  pub interval : ℕ
  pub due : ℕ
  pub recurring : Bool

pub record Deal : Type 0 where
  pub lessor : ℕ
  pub price : Option ℕ
  pub minimum : Option ℕ
  pub maximum : Option ℕ
  pub offered : Bool
  pub tenant : Option Tenant

abbrev pub Market : Type 0
Market = ℕ → Option Deal

-- A deal with another tenant.
abbrev pub tenanted : Deal → Option Tenant → Deal
tenanted d t = record d { tenant = t }

-- A number of blocks is within a bound that is set.
abbrev pub AtLeast : Option ℕ → ℕ → Type 0
AtLeast none n = Unit
AtLeast (some minimum) n = minimum ≤ n

abbrev pub AtMost : Option ℕ → ℕ → Type 0
AtMost none n = Unit
AtMost (some maximum) n = n ≤ maximum

-- What the account `a` may do.
pub data Move (a : ℕ) (m u : Market) : Type 0 where
  stayed : u ≡ m → Move a m u
  created :
      (id : ℕ)
      → m id ≡ none
      → u
        ≡ update m id (
            some (record {
              lessor = a;
              price = none;
              minimum = none;
              maximum = none;
              offered = false;
              tenant = none;
            }))
      → Move a m u
  destroyed :
      (id : ℕ) (d : Deal)
      → m id ≡ some d
      → d.lessor ≡ a
      → d.tenant ≡ none
      → u ≡ update m id none
      → Move a m u
  offered :
      (id price minimum maximum : ℕ) (d : Deal)
      → m id ≡ some d
      → d.lessor ≡ a
      → d.tenant ≡ none
      → minimum ≤ maximum
      → u
        ≡ update m id (
            some (record d {
              price = some price;
              minimum = some minimum;
              maximum = some maximum;
              offered = true;
            }))
      → Move a m u
  withdrawn :
      (id : ℕ) (d : Deal)
      → m id ≡ some d
      → d.lessor ≡ a
      → u ≡ update m id (some (record d { offered = false }))
      → Move a m u
  rented :
      (id price : ℕ) (d : Deal) (t : Tenant)
      → m id ≡ some d
      → d.lessor ≢ a
      → d.tenant ≡ none
      → d.price ≡ some price
      → AtLeast d.minimum t.interval
      → AtMost d.maximum t.interval
      → t.lessee ≡ a
      → u ≡ update m id (some (tenanted d (some t)))
      → Move a m u
  repeated :
      (id : ℕ) (d : Deal) (t : Tenant) (recurring : Bool)
      → m id ≡ some d
      → d.tenant ≡ some t
      → t.lessee ≡ a
      → u ≡ update m id (some (tenanted d (some (record t { recurring = recurring }))))
      → Move a m u
  prolonged :
      (id due : ℕ) (d : Deal) (t : Tenant)
      → m id ≡ some d
      → d.tenant ≡ some t
      → t.lessee ≡ a
      → u ≡ update m id (some (tenanted d (some (record t { due = due }))))
      → Move a m u

-- What the block `n` may do: end or renew rentals that are due in it, the latter where the rental is
-- recurring and the collectible still on offer.
pub data Turn (n : ℕ) (m u : Market) : Type 0 where
  ended :
      (id : ℕ) (d : Deal) (t : Tenant)
      → m id ≡ some d
      → d.tenant ≡ some t
      → t.due ≡ n
      → u ≡ update m id (some (tenanted d none))
      → Turn n m u
  renewed :
      (id due : ℕ) (d : Deal) (t : Tenant)
      → m id ≡ some d
      → d.tenant ≡ some t
      → t.due ≡ n
      → t.recurring ≡ true
      → d.offered ≡ true
      → u ≡ update m id (some (tenanted d (some (record t { due = due }))))
      → Turn n m u

pub data Turns (n : ℕ) : Market → Market → Type 0 where
  done : {m : Market} → Turns n m m
  turn : {m u v : Market} → Turn n m u → Turns n u v → Turns n m v
