-- ===== src/Rent/Mock.antt =====
-- The mock runtime of pallets/rent/src/mock.rs: its configuration and genesis, and the functions with
-- which tests advance the chain and store collectibles.
pub mod Kept
pub mod Waiting
pub mod Life
use pallet_rent.Prelude.{
  ℕ, suc, zero, ◌+◌, ◌-◌, ◌*◌, Bool, Option, some, List, [], ◌∷◌, get_or, update,
}
use pallet_rent.Rent.Types.{ExistenceRequirement, Transfer, Config, Collectible, State}
use pallet_rent.Rent.Effects.{
  Outcome, ok, err, panic, endless, M, unwrap, gets, modify, ◌>>=◌, ◌>>◌,
}
use pallet_rent.Rent.Internal.{try_push}
use pallet_rent.Rent.Calls.{on_initialize}
use pallet_rent.Rent.Chain.{genesis}

-- The code of the runtime that is not in the repository: the balances pallet, the randomness pallet,
-- the encoding and the hash.
pub record Externals (L : Type 0) : Type 0 where
  pub free_balance : L → ℕ → ℕ
  pub transfer : L → ℕ → ℕ → ℕ → ExistenceRequirement → Transfer L
  pub random : ℕ → List ℕ → ℕ × ℕ
  pub encode : ℕ → ℕ → ℕ → List ℕ
  pub blake2_128 : List ℕ → ℕ
  pub endow : List (ℕ × ℕ) → L

-- `impl Config for Test`, with the block numbers and the balances of `Test`, both of 64 bits.
abbrev pub test_config : {L : Type 0} → Externals L → Config L
test_config x = record {
  maximum_owned = 100;
  maximum_rentables_per_block = 100;
  block_bits = 64;
  balance_bits = 64;
  free_balance = x.free_balance;
  transfer = x.transfer;
  random = x.random;
  encode = x.encode;
  blake2_128 = x.blake2_128;
}

abbrev pub existential_deposit : ℕ
existential_deposit = 500

-- `ExtBuilder::build`
abbrev pub build : {L : Type 0} → Externals L → State L
build x = record (genesis (x.endow ((1, 1000000000) ∷ (2, 1000000000) ∷ (3, 1000000000) ∷ []))) {
  block_number = 1;
}

abbrev pub init_timestamp : ℕ
init_timestamp = 30000

abbrev pub block_time : ℕ
block_time = 1000

-- The storage of the pallet, and the time of the timestamp pallet.
pub record Clocked (L : Type 0) : Type 0 where
  pub chain : State L
  pub timestamp : ℕ

-- What follows the hook in a round of `run_to_block`: the time of the block is set.
abbrev pub set_timestamp :
    {L : Type 0} → Clocked L → Outcome (Unit {0}) × State L → Outcome (Unit {0}) × Clocked L
set_timestamp m (ok u, s) =
    (ok tt, record { chain = s; timestamp = s.block_number * block_time + init_timestamp })
set_timestamp m (err x, s) = (err x, record m { chain = s })
set_timestamp m (panic, s) = (panic, record m { chain = s })
set_timestamp m (endless, s) = (endless, record m { chain = s })

-- The rest of a loop, unless a round did not return.
abbrev pub go_on :
    {L : Type 0}
    → (Clocked L → Outcome (Unit {0}) × Clocked L)
    → Outcome (Unit {0}) × Clocked L
    → Outcome (Unit {0}) × Clocked L
go_on k (ok u, m) = k m
go_on k (err x, m) = (err x, m)
go_on k (panic, m) = (panic, m)
go_on k (endless, m) = (endless, m)

module _ {L : Type 0} (cfg : Config L) where
  -- One round of the `for` loop of `run_to_block`. `on_finalize` is the empty default of `Hooks`.
  unfoldable pub next_block : Clocked L → Outcome (Unit {0}) × Clocked L
  next_block m =
      let b = m.chain.block_number + 1 in
      set_timestamp m (on_initialize cfg b (record m.chain { block_number = b }))

  -- The rounds that are left of the loop.
  unfoldable pub run_blocks : ℕ → Clocked L → Outcome (Unit {0}) × Clocked L
  run_blocks zero m = (ok tt, m)
  run_blocks (suc k) m = go_on (run_blocks k) (next_block m)

  -- `run_to_block`
  unfoldable pub run_to_block : ℕ → Clocked L → Outcome (Unit {0}) × Clocked L
  run_to_block n m = run_blocks (n - m.chain.block_number) m

  -- `add_collectible`
  unfoldable pub add_collectible :
      ℕ → ℕ → Option ℕ → Bool → Option ℕ → Option ℕ → Option ℕ → M L (Unit {0})
  add_collectible id lessor lessee rentable price minimum maximum = do
    let collectible : Collectible = record {
      collectible_id = id;
      price_per_block = price;
      lessor = lessor;
      lessee = lessee;
      rentable = rentable;
      minimum_rental_period = minimum;
      maximum_rental_period = maximum;
    }
    modify λ s. record s { collectibles = update s.collectibles id (some collectible) }
    owned ← gets λ s. get_or (s.lessor_collectibles lessor) []
    owned ← unwrap (try_push cfg owned id)
    modify λ s. record s { lessor_collectibles = update s.lessor_collectibles lessor (some owned) }
