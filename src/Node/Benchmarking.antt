-- ===== src/Node/Benchmarking.antt =====
-- The extrinsics of node/src/benchmarking.rs, and the builders that node/src/command.rs registers.
--
-- The key pair and the account of the development keyring are parameters. The client is asked for the
-- state of its chain twice, and blocks may be imported in between.
pub mod Valid
mod Samples
use pallet_rent.Prelude.{
  ℕ, zero, suc, ◌*◌, ◌/◌, Option, none, some, List, [], ◌∷◌, if◌then◌else◌, leb,
}
use pallet_rent.Runtime.{version, block_hash_count, existential_deposit}
use pallet_rent.Runtime.Transactions.{
  RuntimeCall, remark, transfer_keep_alive, SignedExtra, UncheckedExtrinsic, Library,
}

-- The first power of two from `p` on, in at most so many doublings, that is not below `n`.
abbrev pub power_from : ℕ → ℕ → ℕ → Option ℕ
power_from zero p n = none
power_from (suc doublings) p n =
    let rest = power_from doublings (2 * p) n in if leb n p then some p else rest

-- `u32::checked_next_power_of_two`
abbrev pub checked_next_power_of_two : ℕ → Option ℕ
checked_next_power_of_two n = power_from 32 1 n

-- `.map(|c| c / 2).unwrap_or(2)`
abbrev pub half_or_two : Option ℕ → ℕ
half_or_two none = 2
half_or_two (some c) = c / 2

-- The period of the extrinsics.
abbrev pub period : ℕ
period = half_or_two (checked_next_power_of_two block_hash_count)

-- A library's result.
pub data Provided (E D : Type 0) : Type 0 where
  provided : D → Provided E D
  failed : E → Provided E D

-- The error text "creating inherent data: …" with the library's error.
pub data Creating (E : Type 0) : Type 0 where
  creating_inherent_data : E → Creating E

abbrev map_err : {E F D : Type 0} → (E → F) → Provided E D → Provided F D
map_err f (provided d) = provided d
map_err f (failed e) = failed (f e)

-- `inherent_benchmark_data`, given `InherentData::new` and what the provider of timestamps adds for a
-- time in milliseconds.
abbrev pub inherent_benchmark_data :
    {E D : Type 0} → D → (ℕ → D → Provided E D) → Provided (Creating E) D
inherent_benchmark_data new provide_timestamp =
    map_err creating_inherent_data (provide_timestamp 0 new)

-- What `chain_info` answers.
pub record Info : Type 0 where
  pub best_hash : ℕ
  pub best_number : ℕ

-- The client, with its answers to the successive calls of `chain_info`.
pub record Client : Type 0 where
  pub block_hash : ℕ → Option ℕ
  pub chain_info : ℕ → Info

-- `RemarkBuilder` and `TransferKeepAliveBuilder`
pub data Builder : Type 0 where
  remark_builder : Builder
  transfer_keep_alive_builder : (dest value : ℕ) → Builder

-- `pallet` of the two builders: "system" and "balances".
abbrev pub pallet : Builder → List ℕ
pallet remark_builder = b's' ∷ b'y' ∷ b's' ∷ b't' ∷ b'e' ∷ b'm' ∷ []
pallet (transfer_keep_alive_builder dest value) =
    b'b' ∷ b'a' ∷ b'l' ∷ b'a' ∷ b'n' ∷ b'c' ∷ b'e' ∷ b's' ∷ []

-- `extrinsic` of the two builders: "remark" and "transfer_keep_alive".
abbrev pub extrinsic : Builder → List ℕ
extrinsic remark_builder = b'r' ∷ b'e' ∷ b'm' ∷ b'a' ∷ b'r' ∷ b'k' ∷ []
extrinsic (transfer_keep_alive_builder dest value) =
    b't' ∷ b'r' ∷ b'a' ∷ b'n' ∷ b's' ∷ b'f' ∷ b'e' ∷ b'r' ∷ b'_' ∷ b'k' ∷ b'e' ∷ b'e' ∷ b'p' ∷ b'_'
    ∷ b'a' ∷ b'l' ∷ b'i' ∷ b'v' ∷ b'e' ∷ []

module _ {E Pair : Type 0} (lib : Library E Pair) (client : Client) where
  -- `create_benchmark_extrinsic`; none is the panic where there is no genesis block.
  unfoldable pub create_benchmark_extrinsic : Pair → RuntimeCall → ℕ → Option (UncheckedExtrinsic E)
  create_benchmark_extrinsic sender call nonce = elim (client.block_hash 0) [
    | none ↦ none
    | some genesis_hash ↦
        let best_hash = (client.chain_info 0).best_hash in
        let best_block = (client.chain_info 1).best_number in
        let extra : SignedExtra E = record {
          check_non_zero_sender = tt;
          check_spec_version = tt;
          check_tx_version = tt;
          check_genesis = tt;
          check_era = lib.mortal period best_block;
          check_nonce = nonce;
          check_weight = tt;
          charge_transaction_payment = 0;
        } in
        let raw_payload = lib.encoded call extra (
          tt, version.spec_version, version.transaction_version, genesis_hash, best_hash, tt, tt,
          tt,
        ) in
        some (record {
          call = call;
          signer = lib.account sender;
          signature = lib.sign sender raw_payload;
          extra = extra;
        })
  ]

  -- `build` of the two builders, with the key pair of Bob.
  unfoldable pub build : Pair → Builder → ℕ → Option (UncheckedExtrinsic E)
  unfolding create_benchmark_extrinsic
  build bob remark_builder nonce = create_benchmark_extrinsic bob (remark []) nonce
  build bob (transfer_keep_alive_builder dest value) nonce =
      create_benchmark_extrinsic bob (transfer_keep_alive dest value) nonce

-- The builders of the subcommand `benchmark extrinsic`, given the account of Alice.
abbrev pub extrinsic_builders : ℕ → List Builder
extrinsic_builders alice =
    remark_builder ∷ transfer_keep_alive_builder alice existential_deposit ∷ []
