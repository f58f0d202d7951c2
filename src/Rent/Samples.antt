-- ===== src/Rent/Samples.antt =====
-- A concrete runtime and storages for the tests and examples about pallets/rent/src/lib.rs: the
-- configuration of the mock runtime (pallets/rent/src/mock.rs), with a simple currency in which
-- accounts keep the existential deposit, and a hash that tells the inputs of the tests apart.
pub mod Scenarios
pub mod Examples
pub mod Runs
pub mod Guards
pub mod Markets
pub mod Lives
pub mod Extensions
pub mod RoundTrips
pub mod Courses
pub mod Verdicts
pub mod Absences
use pallet_rent.Rent.Mock.{Externals, test_config, existential_deposit}
use pallet_rent.Prelude.{
  ℕ, ◌+◌, ◌-◌, ◌*◌, true, false, none, some, List, [], ◌∷◌, if◌then◌else◌, leb, ◌==◌, update,
  update₂,
}
use pallet_rent.Rent.Types.{
  ExistenceRequirement, Transfer, moved, refused, Config, Collectible, RentalPeriodConfig, State,
}

abbrev pub Ledger : Type 0
Ledger = ℕ → ℕ

abbrev pub move_funds : Ledger → ℕ → ℕ → ℕ → ExistenceRequirement → Transfer Ledger
move_funds l from to amount e =
    if from == to
    then moved l
    else (if leb (amount + existential_deposit) (l from)
        then moved (update (update l from (l from - amount)) to (l to + amount))
        else refused 1)

abbrev pub digits : List ℕ → ℕ
digits [] = 0
digits (x ∷ xs) = x + 1000 * digits xs

abbrev pub endow : List (ℕ × ℕ) → Ledger
endow [] a = 0
endow (b ∷ bs) a = if b.0 == a then b.1 else endow bs a

abbrev pub externals : Externals Ledger
externals = record {
  free_balance = λ l a. l a;
  transfer = move_funds;
  random = λ block subject. (block, block);
  encode = λ hash index block. hash ∷ index ∷ block ∷ [];
  blake2_128 = digits;
  endow = endow;
}

abbrev pub test : Config Ledger
test = test_config externals

-- The balances of `ExtBuilder::build`.
abbrev pub funds : Ledger
funds a = if leb 1 a then (if leb a 3 then 1000000000 else 0) else 0

-- A collectible 7 of account 1, at 100 per block for 10 to 30 blocks.
abbrev pub offer : Collectible
offer = record {
  collectible_id = 7;
  price_per_block = some 100;
  lessor = 1;
  lessee = none;
  rentable = true;
  minimum_rental_period = some 10;
  maximum_rental_period = some 30;
}

abbrev pub rented : Collectible
rented = record offer { lessee = some 2 }

abbrev pub lease : RentalPeriodConfig
lease = record { rental_periodic_interval = 10; next_rent_block = 11; recurring = false }

abbrev pub bare : State Ledger
bare = record {
  block_number = 1;
  extrinsic_index = none;
  balances = funds;
  collectibles = λ id. none;
  lessor_collectibles = λ a. none;
  lessee_collectibles = λ a id. none;
  rentable_collectibles = [];
  pending_rentals = λ b. [];
  account_equips = λ a. none;
  events = [];
}

-- The collectible is offered.
abbrev pub offering : State Ledger
offering = record bare {
  collectibles = update bare.collectibles 7 (some offer);
  lessor_collectibles = update bare.lessor_collectibles 1 (some (7 ∷ []));
  rentable_collectibles = 7 ∷ [];
}

-- Account 2 rents it until block 11.
abbrev pub renting : State Ledger
renting = record offering {
  collectibles = update bare.collectibles 7 (some rented);
  lessee_collectibles = update₂ bare.lessee_collectibles 2 7 (some lease);
  pending_rentals = update bare.pending_rentals 11 ((7, 2) ∷ []);
}
