-- ===== src/Runtime/Genesis.antt =====
-- The genesis of the built-in chain specifications (node/src/chain_spec.rs) meets the limits of the
-- runtime (runtime/src/lib.rs).
use pallet_rent.Prelude.{
  ℕ, ◌^◌, ◌≤◌, ◌<◌, ◌≡◌, inl, inr, Bool-cases, true, Option, some, List, [], ◌∷◌, arith, length,
  ◌||◌,
}
use pallet_rent.Node.Strings.{alice, bob, dev, local_id, eq_string}
use pallet_rent.Node.Names.{All, Apart, Unique, Given-Unique}
use pallet_rent.Node.ChainSpec.{Scheme, GenesisConfig, ChainSpec, Loaded, ok, account_id, load_spec}
use pallet_rent.Node.Endowment.{
  issuance, holders, seeds, dev_seeds, Good, Endows, development_config-Endows,
  local_testnet_config-Endows,
}
use pallet_rent.Runtime.{
  max_aura_authorities, max_grandpa_authorities, existential_deposit, balance_bits,
}

-- What the runtime's pallets ask of a genesis: no endowment below the existential deposit, no account
-- endowed twice, an issuance that a balance can hold, and not more authorities than they keep.
pub record Fits (g : GenesisConfig) : Type 0 where
  pub existential : All (λ (b : ℕ × ℕ). existential_deposit ≤ b.1) g.balances
  pub once : Unique (holders g.balances)
  pub issued : issuance g.balances < 2 ^ balance_bits
  pub auras : length g.aura_authorities ≤ max_aura_authorities
  pub grandpas : length g.grandpa_authorities ≤ max_grandpa_authorities

All-existential :
    (bs : List (ℕ × ℕ))
    → All (λ (b : ℕ × ℕ). b.1 ≡ 2 ^ 60) bs
    → All (λ (b : ℕ × ℕ). existential_deposit ≤ b.1) bs
All-existential [] h = tt
All-existential (b ∷ bs) h = (omega (arith, h.0), All-existential bs h.1)

module _ (from_string : Scheme → List ℕ → Option ℕ) (into_account : ℕ → ℕ) where
  Endows-Fits :
      (wasm : List ℕ) (authorities endowed : List (List ℕ)) (g : GenesisConfig)
      → length authorities ≤ 32
      → length endowed ≤ 100
      → Apart (account_id from_string into_account) endowed
      → Endows from_string into_account wasm authorities endowed g
      → Fits g
  Endows-Fits wasm authorities endowed g few limited differ e = record {
    existential = All-existential g.balances e.each;
    once =
        Given-Unique (account_id from_string into_account) endowed (holders g.balances) e.whose
          differ;
    issued = omega (arith, e.issued, limited);
    auras = omega (arith, e.auras, few);
    grandpas = omega (arith, e.grandpas, few);
  }

  dev-Apart :
      Apart (account_id from_string into_account) seeds
      → Apart (account_id from_string into_account) dev_seeds
  dev-Apart h = (
    (h.0.0, (h.0.1.1.1.1.1.0, (h.0.1.1.1.1.1.1.0, tt))),
    ((h.1.0.1.1.1.1.0, (h.1.0.1.1.1.1.1.0, tt)), ((h.1.1.1.1.1.1.0.0, tt), (tt, tt))),
  )

  -- If the Wasm binary is there, the twelve seeds have keys and their accounts differ, `load_spec` for
  -- `dev`, for the empty id and for `local` returns a specification, whatever the reading of a file
  -- would give, and its genesis fits the runtime: each endowment is at least the existential
  -- deposit, no account is endowed twice, the issuance is below 2 ^ 128, and there are at most 32
  -- authorities of each kind.
  pub load_spec-Fits :
      (wasm : List ℕ) (from_json_file : List ℕ → Loaded) (id : List ℕ)
      → All (Good from_string into_account) seeds
      → Apart (account_id from_string into_account) seeds
      → (eq_string id dev || (eq_string id [] || eq_string id local_id)) ≡ true
      → (spec : ChainSpec) × (g : GenesisConfig) × (load_spec from_string into_account
            (some wasm)
            from_json_file
            id
          ≡ ok spec)
        × (spec.genesis ≡ some g)
        × Fits g
  unfolding load_spec
  load_spec-Fits wasm from_json_file id good differ known = elim (Bool-cases (eq_string id dev)) [
    | inl is ↦
        let (spec, g, loaded, made, gives) =
          development_config-Endows from_string into_account wasm good in
        (
          spec,
          g,
          rw is loaded,
          made,
          Endows-Fits wasm (alice ∷ []) dev_seeds g (omega arith) (omega arith) (dev-Apart differ)
              gives,
        )
    | inr other ↦
        let (spec, g, loaded, made, gives) =
          local_testnet_config-Endows from_string into_account wasm good in
        (
          spec,
          g,
          rw (other, (rw other at known)) loaded,
          made,
          Endows-Fits wasm (alice ∷ bob ∷ []) seeds g (omega arith) (omega arith) differ gives,
        )
  ]
