-- ===== src/Node/Samples.antt =====
-- The theorems about node/src/chain_spec.rs at concrete inputs.
use pallet_rent.Prelude.{ℕ, ◌+◌, ◌*◌, Option, some, List, [], ◌∷◌, arith, length}
use pallet_rent.Node.ChainSpec.{
  Scheme, sr25519, aura_id, grandpa_id, development_config, local_testnet_config,
}
use pallet_rent.Node.Strings.{alice, bob}
use pallet_rent.Node.Names.{All}
use pallet_rent.Node.Endowment.{Good, seeds, dev_seeds, Makes, built_in-Endows}

-- Keys that tell seeds of different lengths apart.
abbrev from_string : Scheme → List ℕ → Option ℕ
from_string sr25519 seed = some (length seed)
from_string aura_id seed = some (1000 + length seed)
from_string grandpa_id seed = some (2000 + length seed)

abbrev into_account : ℕ → ℕ
into_account key = 2 * key

All-Good : (names : List (List ℕ)) → All (Good from_string into_account) names
All-Good [] = tt
All-Good (name ∷ names) = (good, All-Good names)
  where
    good : Good from_string into_account name
    good sr25519 = ground arith
    good aura_id = ground arith
    good grandpa_id = ground arith

built_in-Endows_example :
    Makes from_string into_account
      (0 ∷ [])
      (development_config from_string into_account (some (0 ∷ [])))
      (alice ∷ [])
      dev_seeds
    × Makes from_string into_account
        (0 ∷ [])
        (local_testnet_config from_string into_account (some (0 ∷ [])))
        (alice ∷ bob ∷ [])
        seeds
built_in-Endows_example = built_in-Endows from_string into_account (0 ∷ []) (All-Good seeds)
