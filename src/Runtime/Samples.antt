-- ===== src/Runtime/Samples.antt =====
-- The theorems about runtime/src/lib.rs at concrete inputs.
use pallet_rent.Prelude.{
  ℕ, ◌+◌, ◌*◌, ◌<◌, ◌≡◌, ◌≢◌, ◌^◌, refl, Bool, true, false, not, ◌&&◌, ◌==◌, Option, some, List, [],
  ◌∷◌, arith,
}
use pallet_rent.Node.Strings.{dev}
use pallet_rent.Node.Names.{All, Apart}
use pallet_rent.Node.ChainSpec.{
  Scheme, sr25519, aura_id, grandpa_id, ChainSpec, GenesisConfig, Loaded, ok, err, account_id,
  load_spec,
}
use pallet_rent.Node.Endowment.{seeds, Good}
use pallet_rent.Rent.Types.{Collectible}
use pallet_rent.Rent.Rules.{Post}
use pallet_rent.Rent.Calls.{signed, rent}
use pallet_rent.Rent.Properties.Payment.{CurrencyLaws, Pays}
use pallet_rent.Rent.Samples.{externals, offering}
use pallet_rent.Rent.Samples.Runs.{test-CurrencyLaws}
use pallet_rent.Runtime.{runtime_config, slot_duration, minutes, hours, days}
use pallet_rent.Runtime.Genesis.{Fits, load_spec-Fits}
use pallet_rent.Runtime.Prices.{runtime_rent-Pays}

-- A number for each string.
abbrev code : List ℕ → ℕ
code [] = 1
code (x ∷ xs) = x + 1000 * code xs

abbrev from_string : Scheme → List ℕ → Option ℕ
from_string sr25519 seed = some (code seed)
from_string aura_id seed = some (code seed + 1)
from_string grandpa_id seed = some (code seed + 2)

abbrev into_account : ℕ → ℕ
into_account key = 2 * key

abbrev from_json_file : List ℕ → Loaded
from_json_file path = err path

All-Good : (names : List (List ℕ)) → All (Good from_string into_account) names
All-Good [] = tt
All-Good (name ∷ names) = (good, All-Good names)
  where
    good : Good from_string into_account name
    good sr25519 = ground arith
    good aura_id = ground arith
    good grandpa_id = ground arith

-- Ten blocks a minute, and a day has as many slots as its milliseconds say.
clock_example : (minutes ≡ 10) × (hours ≡ 600) × (days * slot_duration ≡ 24 * 60 * 60 * 1000)
clock_example = (refl, refl, refl)

abbrev account : List ℕ → Option ℕ
account = account_id from_string into_account

abbrev number : List ℕ → ℕ
number name = 2 * code (47 ∷ 47 ∷ name)

abbrev differs : ℕ → List (List ℕ) → Bool
differs n [] = true
differs n (name ∷ names) = not (n == number name) && differs n names

abbrev all_differ : List (List ℕ) → Bool
all_differ [] = true
all_differ (name ∷ names) = differs (number name) names && all_differ names

differs-All :
    (n : ℕ) (names : List (List ℕ))
    → differs n names ≡ true
    → All (λ other. some n ≢ account other) names
differs-All n [] h = tt
differs-All n (name ∷ names) h =
    (λ e. ground (arith, h, e), differs-All n names (ground (arith, h)))

all_differ-Apart : (names : List (List ℕ)) → all_differ names ≡ true → Apart account names
all_differ-Apart [] h = tt
all_differ-Apart (name ∷ names) h = (
  differs-All (number name) names (ground (arith, h)),
  all_differ-Apart names (ground (arith, h)),
)

load_spec-Fits_example :
    (spec : ChainSpec) × (g : GenesisConfig) × (load_spec from_string into_account
        (some (0 ∷ []))
        from_json_file
        dev
      ≡ ok spec)
    × (spec.genesis ≡ some g)
    × Fits g
load_spec-Fits_example =
    load_spec-Fits from_string into_account (0 ∷ []) from_json_file dev (All-Good seeds)
      (all_differ-Apart seeds refl) refl

runtime-CurrencyLaws : CurrencyLaws (runtime_config externals)
runtime-CurrencyLaws = record {
  debit = test-CurrencyLaws.debit;
  credit = test-CurrencyLaws.credit;
  others = test-CurrencyLaws.others;
}

offer-cheap :
    (c : Collectible) (price : ℕ)
    → offering.collectibles 7 ≡ some c
    → c.price_per_block ≡ some price
    → price < 2 ^ 96
offer-cheap c price known priced = ground (arith, known, priced)

runtime_rent-Pays_example :
    Post
      (λ t.
        (c : Collectible) × (price : ℕ) × (offering.collectibles 7 ≡ some c)
        × (c.price_per_block ≡ some price)
        × Pays (runtime_config externals) runtime-CurrencyLaws offering t 2 c.lessor (price * 10))
      (rent (runtime_config externals) (signed 2) 7 10 false offering)
runtime_rent-Pays_example =
    runtime_rent-Pays externals runtime-CurrencyLaws 2 7 10 false offering (omega arith) offer-cheap
