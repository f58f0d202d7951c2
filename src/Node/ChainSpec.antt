-- ===== src/Node/ChainSpec.antt =====
-- The chain specifications of node/src/chain_spec.rs and `load_spec` of node/src/command.rs.
--
-- What is not in the repository is a parameter: the key pairs, the accounts of public keys, the Wasm
-- binary that the build makes, and the reading of a specification from a file. A function that
-- panics where a seed is no valid secret returns an option.
use pallet_rent.Prelude.{
  ℕ, ◌^◌, Bool, true, Option, none, some, List, [], ◌∷◌, ◌++◌, map, if◌then◌else◌, ◌||◌,
}
use pallet_rent.Node.Strings.{
  slashes, alice, bob, charlie, dave, eve, ferdie, alice_stash, bob_stash, charlie_stash,
  dave_stash, eve_stash, ferdie_stash, development, dev, local_testnet, local_testnet_id, local_id,
  no_wasm, eq_string,
}

-- The type parameter `TPublic` of the functions on seeds.
pub data Scheme : Type 0 where
  sr25519 aura_id grandpa_id : Scheme

-- `GenesisConfig`, with the fields that `testnet_genesis` fills in.
pub record GenesisConfig : Type 0 where
  pub code : List ℕ
  pub balances : List (ℕ × ℕ)
  pub aura_authorities : List ℕ
  pub grandpa_authorities : List (ℕ × ℕ)
  pub sudo_key : Option ℕ
  pub transaction_payment : Unit {0}

pub data ChainType : Type 0 where
  development_chain local_chain : ChainType

-- `ChainSpec` as `from_genesis` is given it; the genesis is none where its closure panics.
pub record ChainSpec : Type 0 where
  pub name : List ℕ
  pub id : List ℕ
  pub chain_type : ChainType
  pub genesis : Option GenesisConfig
  pub boot_nodes : List (List ℕ)
  pub telemetry_endpoints : Option (List (List ℕ))
  pub protocol_id : Option (List ℕ)
  pub fork_id : Option (List ℕ)
  pub properties : Option (List ℕ)
  pub extensions : Option (List ℕ)

-- `Result<ChainSpec, String>`
pub data Loaded : Type 0 where
  ok : ChainSpec → Loaded
  err : List ℕ → Loaded

infixl 5 ◌>>=◌
abbrev pub ◌>>=◌ : {A B : Type 0} → Option A → (A → Option B) → Option B
none >>= f = none
some a >>= f = f a

-- The values of a `vec!` that is evaluated from left to right.
abbrev pub all_of : {A : Type 0} → List (Option A) → Option (List A)
all_of [] = some []
all_of (o ∷ os) = do x ← o; xs ← all_of os; some (x ∷ xs)

-- `testnet_genesis`
unfoldable pub testnet_genesis : List ℕ → List (ℕ × ℕ) → ℕ → List ℕ → Bool → GenesisConfig
testnet_genesis wasm_binary initial_authorities root_key endowed_accounts enable_println = record {
  code = wasm_binary;
  balances = map (λ k. (k, 2 ^ 60)) endowed_accounts;
  aura_authorities = map (λ x. x.0) initial_authorities;
  grandpa_authorities = map (λ x. (x.1, 1)) initial_authorities;
  sudo_key = some root_key;
  transaction_payment = tt;
}

-- `from_string` is `Pair::from_string` followed by `public`, and `into_account` the account of a
-- public key; `wasm_binary` is the constant `WASM_BINARY`.
module _ (from_string : Scheme → List ℕ → Option ℕ) (into_account : ℕ → ℕ) where
  -- `get_from_seed`
  abbrev pub get_from_seed : Scheme → List ℕ → Option ℕ
  get_from_seed scheme seed = from_string scheme (slashes ++ seed)

  -- `get_account_id_from_seed`, at the scheme that every call uses.
  abbrev pub account_id : List ℕ → Option ℕ
  account_id seed = do key ← get_from_seed sr25519 seed; some (into_account key)

  -- `authority_keys_from_seed`
  abbrev pub authority_keys : List ℕ → Option (ℕ × ℕ)
  authority_keys seed = do
    aura ← get_from_seed aura_id seed
    grandpa ← get_from_seed grandpa_id seed
    some (aura, grandpa)

  -- The closure of a specification: the authorities, the sudo account and the endowed accounts.
  abbrev pub genesis_of : List ℕ → List (List ℕ) → List ℕ → List (List ℕ) → Option GenesisConfig
  genesis_of wasm authorities root endowed = do
    initial_authorities ← all_of (map authority_keys authorities)
    root_key ← account_id root
    endowed_accounts ← all_of (map account_id endowed)
    some (testnet_genesis wasm initial_authorities root_key endowed_accounts true)

  -- `development_config`
  unfoldable pub development_config : Option (List ℕ) → Loaded
  unfolding testnet_genesis
  development_config wasm_binary = elim wasm_binary [
    | none ↦ err no_wasm
    | some wasm ↦ ok (record {
      name = development;
      id = dev;
      chain_type = development_chain;
      genesis = genesis_of wasm (alice ∷ []) alice (alice ∷ bob ∷ alice_stash ∷ bob_stash ∷ []);
      boot_nodes = [];
      telemetry_endpoints = none;
      protocol_id = none;
      fork_id = none;
      properties = none;
      extensions = none;
    })
  ]

  -- `local_testnet_config`
  unfoldable pub local_testnet_config : Option (List ℕ) → Loaded
  unfolding testnet_genesis
  local_testnet_config wasm_binary = elim wasm_binary [
    | none ↦ err no_wasm
    | some wasm ↦ ok (record {
      name = local_testnet;
      id = local_testnet_id;
      chain_type = local_chain;
      genesis = genesis_of wasm (alice ∷ bob ∷ []) alice (
          alice ∷ bob ∷ charlie ∷ dave ∷ eve ∷ ferdie ∷ alice_stash ∷ bob_stash ∷ charlie_stash
          ∷ dave_stash ∷ eve_stash ∷ ferdie_stash ∷ []);
      boot_nodes = [];
      telemetry_endpoints = none;
      protocol_id = none;
      fork_id = none;
      properties = none;
      extensions = none;
    })
  ]

  -- `load_spec`, where `from_json_file` reads a specification.
  unfoldable pub load_spec : Option (List ℕ) → (List ℕ → Loaded) → List ℕ → Loaded
  unfolding development_config local_testnet_config
  load_spec wasm_binary from_json_file id =
      if eq_string id dev
      then development_config wasm_binary
      else (if eq_string id [] || eq_string id local_id
          then local_testnet_config wasm_binary
          else from_json_file id)
