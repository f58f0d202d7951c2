-- ===== src/Rent/Types.antt =====
-- The data of pallets/rent/src/lib.rs: the configuration trait, the stored types, the storage
-- items, the events and the errors. Accounts, collectible ids, block numbers and balances are
-- numbers: the pallet compares them, adds block numbers and multiplies balances.
use pallet_rent.Prelude.{ℕ, Bool, Option, List}

-- `frame_support::traits::ExistenceRequirement`, of which the pallet passes `KeepAlive`.
pub data ExistenceRequirement : Type 0 where
  keep_alive allow_death : ExistenceRequirement

-- What the currency answers to a transfer: the new balances, or the code of its error.
pub data Transfer (L : Type 0) : Type 0 where
  moved : L → Transfer L
  refused : ℕ → Transfer L

-- `trait Config`: the two constants, and what the pallet takes from the runtime. `L` is the
-- currency's own storage. The last four fields belong to code outside the repository: the currency,
-- the randomness source (by block number and subject), the SCALE encoding of the tuple of hash,
-- extrinsic index and block number, and the hash function. The two widths are those of
-- `T::BlockNumber` and of `BalanceOf<T>`.
pub record Config (L : Type 0) : Type 0 where
  pub maximum_owned : ℕ
  pub maximum_rentables_per_block : ℕ
  pub block_bits : ℕ
  pub balance_bits : ℕ
  pub free_balance : L → ℕ → ℕ
  pub transfer : L → ℕ → ℕ → ℕ → ExistenceRequirement → Transfer L
  pub random : ℕ → List ℕ → ℕ × ℕ
  pub encode : ℕ → ℕ → ℕ → List ℕ
  pub blake2_128 : List ℕ → ℕ

-- `struct Collectible`
pub record Collectible : Type 0 where
  pub collectible_id : ℕ
  pub price_per_block : Option ℕ
  pub lessor : ℕ
  pub lessee : Option ℕ
  pub rentable : Bool
  pub minimum_rental_period : Option ℕ
  pub maximum_rental_period : Option ℕ

-- `struct RentalPeriodConfig`
pub record RentalPeriodConfig : Type 0 where
  pub rental_periodic_interval : ℕ
  pub next_rent_block : ℕ
  pub recurring : Bool

-- `enum Event`
pub data Event : Type 0 where
  collectible_created : (collectible lessor : ℕ) (current_lessee : Option ℕ) → Event
  transfer_succeeded : (from to collectible : ℕ) → Event
  rent_made_available : (collectible price_per_block : ℕ) → Event
  rent_payed : (lessor lessee collectible total_rent_price : ℕ) → Event
  rental_period_added : (collectible next_rent_block : ℕ) → Event
  rental_period_removed : (collectible at_block : ℕ) → Event
  rental_ended : (lessor lessee collectible : ℕ) → Event
  rent_made_unavailable : (collectible : ℕ) → Event
  rental_set_recurring : (collectible : ℕ) (recurring : Bool) → Event
  error_transfering_rent : (lessor lessee collectible : ℕ) → Event
  collectible_equipped : (account collectible : ℕ) → Event
  collectible_unequipped : (account collectible : ℕ) → Event
  rental_extended : (lessor lessee collectible next_rent_block : ℕ) → Event

-- `enum Error`
pub data Error : Type 0 where
  duplicate_collectible no_collectible no_lessee not_lessor not_lessee already_rented : Error
  too_many_collectibles rent_not_available cannot_rent_own_collectible : Error
  rental_period_too_short rental_period_too_long not_allowed_while_rented : Error
  too_many_collectibles_equiped too_many_collectibles_owned not_enough_balance : Error
  minimum_must_be_less_than_maximum no_account_found_for_collectible : Error

-- The storage items, with what the pallet reads of `frame_system`: the number of the current block
-- and the index of the current extrinsic. `balances` is the currency's storage; `events` lists the
-- deposited events, the first one first.
pub record State (L : Type 0) : Type 0 where
  pub block_number : ℕ
  pub extrinsic_index : Option ℕ
  pub balances : L
  pub collectibles : ℕ → Option Collectible
  pub lessor_collectibles : ℕ → Option (List ℕ)
  pub lessee_collectibles : ℕ → ℕ → Option RentalPeriodConfig
  pub rentable_collectibles : List ℕ
  pub pending_rentals : ℕ → List (ℕ × ℕ)
  pub account_equips : ℕ → Option (List ℕ)
  pub events : List Event
