-- ===== src/Node/Endowment.antt =====
-- What the genesis of a specification of node/src/chain_spec.rs gives to whom.
use pallet_rent.Prelude.{
  ℕ, ◌+◌, ◌*◌, ◌^◌, ◌≡◌, ◌≢◌, refl, ap, inl, inr, Bool, true, Option, none, some, List, [], ◌∷◌,
  map, arith, length, Option-cases,
}
use pallet_rent.Node.Names.{All, Given, all_of-Given, Given-length}
use pallet_rent.Node.Strings.{
  alice, bob, charlie, dave, eve, ferdie, alice_stash, bob_stash, charlie_stash, dave_stash,
  eve_stash, ferdie_stash,
}
use pallet_rent.Node.ChainSpec.{
  Scheme, sr25519, aura_id, grandpa_id, get_from_seed, GenesisConfig, ChainSpec, Loaded, ok,
  testnet_genesis, account_id, authority_keys, genesis_of, development_config, local_testnet_config,
}

-- The accounts other than the first of the local test network, and all its seeds.
abbrev pub others : List (List ℕ)
others =
    bob ∷ charlie ∷ dave ∷ eve ∷ ferdie ∷ alice_stash ∷ bob_stash ∷ charlie_stash ∷ dave_stash
    ∷ eve_stash ∷ ferdie_stash ∷ []

-- The seeds of the development specification.
abbrev pub dev_seeds : List (List ℕ)
dev_seeds = alice ∷ bob ∷ alice_stash ∷ bob_stash ∷ []

abbrev pub seeds : List (List ℕ)
seeds = alice ∷ others

-- All the balances together.
abbrev pub issuance : List (ℕ × ℕ) → ℕ
issuance [] = 0
issuance (b ∷ bs) = b.1 + issuance bs

-- The authorities as pairs again.
abbrev pub paired : List ℕ → List (ℕ × ℕ) → List (ℕ × ℕ)
paired [] gs = []
paired (a ∷ rest) [] = []
paired (a ∷ rest) (g ∷ gs) = (a, g.0) ∷ paired rest gs

-- Everyone in the list has the weight 1.
abbrev pub Equal : List (ℕ × ℕ) → Type 0
Equal [] = Unit
Equal (g ∷ gs) = (g.1 ≡ 1) × Equal gs

issuance_endowed : (ks : List ℕ) → issuance (map (λ k. (k, 2 ^ 60)) ks) ≡ 2 ^ 60 * length ks
issuance_endowed [] = omega arith
issuance_endowed (k ∷ ks) = omega (arith, issuance_endowed ks)

paired_same : (xs : List (ℕ × ℕ)) → paired (map (λ x. x.0) xs) (map (λ x. (x.1, 1)) xs) ≡ xs
paired_same [] = refl
paired_same (x ∷ xs) = ap (λ ys. x ∷ ys) (paired_same xs)

map-Equal : (xs : List (ℕ × ℕ)) → Equal (map (λ x. (x.1, 1)) xs)
map-Equal [] = tt
map-Equal (x ∷ xs) = (refl, map-Equal xs)

-- The genesis of `testnet_genesis` issues 2 ^ 60 for each endowed account, its two lists of
-- authorities are the two halves of the given pairs in their order, each GRANDPA authority with the
-- weight 1, and the sudo key is the given one.
testnet_genesis_lem :
    (wasm : List ℕ) (authorities : List (ℕ × ℕ)) (root : ℕ) (endowed : List ℕ) (b : Bool)
    → let g = testnet_genesis wasm authorities root endowed b in
      (issuance g.balances ≡ 2 ^ 60 * length endowed)
      × (paired g.aura_authorities g.grandpa_authorities ≡ authorities)
      × Equal g.grandpa_authorities
      × (g.sudo_key ≡ some root)
unfolding testnet_genesis
testnet_genesis_lem wasm authorities root endowed b =
    (issuance_endowed endowed, paired_same authorities, map-Equal authorities, refl)

endowed_each : (ks : List ℕ) → All (λ (b : ℕ × ℕ). b.1 ≡ 2 ^ 60) (map (λ k. (k, 2 ^ 60)) ks)
endowed_each [] = tt
endowed_each (k ∷ ks) = (refl, endowed_each ks)

-- The accounts that balances are given to.
abbrev pub holders : List (ℕ × ℕ) → List ℕ
holders bs = map (λ b. b.0) bs

holders_endowed : (ks : List ℕ) → holders (map (λ k. (k, 2 ^ 60)) ks) ≡ ks
holders_endowed [] = refl
holders_endowed (k ∷ ks) = ap (λ xs. k ∷ xs) (holders_endowed ks)

map-length : {A B : Type 0} (f : A → B) (xs : List A) → length (map f xs) ≡ length xs
map-length f [] = refl
map-length f (x ∷ xs) = omega (arith, map-length f xs)

module _ (from_string : Scheme → List ℕ → Option ℕ) (into_account : ℕ → ℕ) where
  -- The seed gives a key of each scheme.
  abbrev pub Good : List ℕ → Type 0
  Good name = (scheme : Scheme) → get_from_seed from_string into_account scheme name ≢ none

  account_id-Good : (name : List ℕ) → Good name → account_id from_string into_account name ≢ none
  account_id-Good name good =
      elim (Option-cases (get_from_seed from_string into_account sr25519 name)) [
        | inl missing ↦ absurd (good sr25519 missing)
        | inr (key, known) ↦ rw known ground arith
      ]

  authority_keys-Good :
      (name : List ℕ) → Good name → authority_keys from_string into_account name ≢ none
  authority_keys-Good name good =
      elim (Option-cases (get_from_seed from_string into_account aura_id name)) [
        | inl missing ↦ absurd (good aura_id missing)
        | inr (aura, known) ↦
            elim (Option-cases (get_from_seed from_string into_account grandpa_id name)) [
              | inl missing ↦ absurd (good grandpa_id missing)
              | inr (grandpa, also) ↦ rw (known, also) ground arith
            ]
      ]

  All-map :
      {P Q : List ℕ → Type 0} (names : List (List ℕ))
      → ((name : List ℕ) → P name → Q name)
      → All P names
      → All Q names
  All-map [] f h = tt
  All-map (name ∷ names) f h = (f name h.0, All-map names f h.1)

  -- What a genesis gives to the accounts of the endowed names and to the authorities, the first
  -- endowed account being the sudo account.
  pub record Endows (wasm : List ℕ) (authorities endowed : List (List ℕ)) (g : GenesisConfig)
      : Type 0 where
    pub code : g.code ≡ wasm
    pub each : All (λ (b : ℕ × ℕ). b.1 ≡ 2 ^ 60) g.balances
    pub whose : Given (account_id from_string into_account) endowed (holders g.balances)
    pub accounts : length g.balances ≡ length endowed
    pub issued : issuance g.balances ≡ 2 ^ 60 * length endowed
    pub authored :
        Given
          (authority_keys from_string into_account)
          authorities
          (paired g.aura_authorities g.grandpa_authorities)
    pub auras : length g.aura_authorities ≡ length authorities
    pub grandpas : length g.grandpa_authorities ≡ length authorities
    pub equal : Equal g.grandpa_authorities
    pub sudo :
        (key : ℕ) × (rest : List (ℕ × ℕ)) × (g.sudo_key ≡ some key)
        × (g.balances ≡ (key, 2 ^ 60) ∷ rest)

  genesis_of-Endows :
      (wasm : List ℕ) (authorities : List (List ℕ)) (root : List ℕ) (more : List (List ℕ))
      → All Good authorities
      → All Good (root ∷ more)
      → (g : GenesisConfig) × (genesis_of from_string into_account wasm authorities root
            (root ∷ more)
          ≡ some g)
        × Endows wasm authorities (root ∷ more) g
  unfolding testnet_genesis
  genesis_of-Endows wasm authorities root more good_authorities good =
      let keys_of = authority_keys from_string into_account in
      let id_of = account_id from_string into_account in
      let (keys, found, authored) =
        all_of-Given keys_of authorities
          (All-map authorities authority_keys-Good good_authorities) in
      let (ids, known, given) = all_of-Given id_of more (All-map more account_id-Good good.1) in
      let long = Given-length keys_of authorities keys authored in
      let size = Given-length id_of more ids given in
      elim (Option-cases (id_of root)) [
        | inl missing ↦ absurd (account_id-Good root good.0 missing)
        | inr (id, is) ↦ (
          testnet_genesis wasm keys id (id ∷ ids) true,
          rw (found, is, known) refl,
          record {
            code = refl;
            each = (refl, endowed_each ids);
            whose = (is, rw (holders_endowed ids) given);
            accounts = omega (arith, map-length {B = ℕ × ℕ} (λ (k : ℕ). (k, 2 ^ 60)) ids);
            issued = omega (arith, issuance_endowed ids);
            authored = rw (paired_same keys) authored;
            auras = omega (arith, map-length (λ (x : ℕ × ℕ). x.0) keys);
            grandpas = omega (arith, map-length {B = ℕ × ℕ} (λ (x : ℕ × ℕ). (x.1, 1)) keys);
            equal = map-Equal keys;
            sudo = (id, map (λ k. (k, 2 ^ 60)) ids, refl, refl);
          },
        )
      ]

  -- The specification is made, and its genesis endows those accounts and authorities.
  abbrev pub Makes : List ℕ → Loaded → List (List ℕ) → List (List ℕ) → Type 0
  Makes wasm loaded authorities endowed =
      (spec : ChainSpec) × (g : GenesisConfig) × (loaded ≡ ok spec)
      × (spec.genesis ≡ some g)
      × Endows wasm authorities endowed g

  pub development_config-Endows :
      (wasm : List ℕ)
      → All Good seeds
      → Makes wasm (development_config from_string into_account (some wasm)) (alice ∷ []) dev_seeds
  unfolding development_config
  development_config-Endows wasm h =
      let (g, made, gives) =
        genesis_of-Endows wasm (alice ∷ []) alice (bob ∷ alice_stash ∷ bob_stash ∷ []) (h.0, tt)
          (h.0, (h.1.0, (h.1.1.1.1.1.1.0, (h.1.1.1.1.1.1.1.0, tt)))) in
      (_, g, refl, made, gives)

  pub local_testnet_config-Endows :
      (wasm : List ℕ)
      → All Good seeds
      → Makes wasm
          (local_testnet_config from_string into_account (some wasm))
          (alice ∷ bob ∷ [])
          seeds
  unfolding local_testnet_config
  local_testnet_config-Endows wasm h =
      let (g, made, gives) =
        genesis_of-Endows wasm (alice ∷ bob ∷ []) alice others (h.0, (h.1.0, tt)) h in
      (_, g, refl, made, gives)

  -- If the Wasm binary is there and the twelve seeds have keys, both built-in specifications are made.
  -- Their genesis holds the binary and gives 2 ^ 60 to each endowed account, the first of which is
  -- the sudo account: those of the four seeds in `dev_seeds` for `development_config`, and of all
  -- twelve for `local_testnet_config`. The first has one authority, with the two keys of the first
  -- seed, the second two, with the keys of the first two seeds, each of the weight 1.
  pub built_in-Endows :
      (wasm : List ℕ)
      → All Good seeds
      → Makes wasm (development_config from_string into_account (some wasm)) (alice ∷ []) dev_seeds
        × Makes wasm
            (local_testnet_config from_string into_account (some wasm))
            (alice ∷ bob ∷ [])
            seeds
  built_in-Endows wasm h = (development_config-Endows wasm h, local_testnet_config-Endows wasm h)
