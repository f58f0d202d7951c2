-- ===== src/Runtime.antt =====
-- The runtime of runtime/src/lib.rs: its constants, the configuration that it gives to the rent pallet,
-- and the limits that it sets for the pallets which a genesis configures.
pub mod Prices
pub mod Genesis
pub mod Transactions
mod Samples
use pallet_rent.Prelude.{ℕ, ◌*◌, ◌/◌, List, [], ◌∷◌}
use pallet_rent.Rent.Types.{Config}
use pallet_rent.Rent.Mock.{Externals}

-- `RuntimeVersion`, less the list of the runtime's interfaces.
pub record RuntimeVersion : Type 0 where
  pub spec_name : List ℕ
  pub impl_name : List ℕ
  pub authoring_version : ℕ
  pub spec_version : ℕ
  pub impl_version : ℕ
  pub transaction_version : ℕ
  pub state_version : ℕ

-- "node-template"
abbrev pub node_template : List ℕ
node_template =
    b'n' ∷ b'o' ∷ b'd' ∷ b'e' ∷ b'-' ∷ b't' ∷ b'e' ∷ b'm' ∷ b'p' ∷ b'l' ∷ b'a' ∷ b't' ∷ b'e' ∷ []

-- `VERSION`
abbrev pub version : RuntimeVersion
version = record {
  spec_name = node_template;
  impl_name = node_template;
  authoring_version = 1;
  spec_version = 100;
  impl_version = 1;
  transaction_version = 1;
  state_version = 1;
}

-- `BlockHashCount`
abbrev pub block_hash_count : ℕ
block_hash_count = 2400

-- `MILLISECS_PER_BLOCK` and `SLOT_DURATION`
abbrev pub millisecs_per_block : ℕ
millisecs_per_block = 6000

abbrev pub slot_duration : ℕ
slot_duration = millisecs_per_block

-- `MINUTES`, `HOURS` and `DAYS`, in blocks.
abbrev pub minutes : ℕ
minutes = 60000 / millisecs_per_block

abbrev pub hours : ℕ
hours = minutes * 60

abbrev pub days : ℕ
days = hours * 24

-- The widths of `BlockNumber` and `Balance`.
abbrev pub block_number_bits : ℕ
block_number_bits = 32

abbrev pub balance_bits : ℕ
balance_bits = 128

-- `impl pallet_rent::Config for Runtime`
abbrev pub runtime_config : {L : Type 0} → Externals L → Config L
runtime_config x = record {
  maximum_owned = 100;
  maximum_rentables_per_block = 100;
  block_bits = block_number_bits;
  balance_bits = balance_bits;
  free_balance = x.free_balance;
  transfer = x.transfer;
  random = x.random;
  encode = x.encode;
  blake2_128 = x.blake2_128;
}

-- `MaxAuthorities` of `pallet_aura` and of `pallet_grandpa`.
abbrev pub max_aura_authorities : ℕ
max_aura_authorities = 32

abbrev pub max_grandpa_authorities : ℕ
max_grandpa_authorities = 32

-- `MinimumPeriod` of `pallet_timestamp`
abbrev pub minimum_period : ℕ
minimum_period = slot_duration / 2

-- `EXISTENTIAL_DEPOSIT`
abbrev pub existential_deposit : ℕ
existential_deposit = 500
