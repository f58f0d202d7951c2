-- ===== src/Node/Benchmarking/Valid.antt =====
-- The extrinsics of node/src/benchmarking.rs are signed as the runtime of runtime/src/lib.rs expects.
use pallet_rent.Prelude.{ℕ, ◌+◌, ◌<◌, ◌≡◌, refl, ◌∙◌, ap, some, [], arith}
use pallet_rent.Runtime.{version}
use pallet_rent.Runtime.Transactions.{
  RuntimeCall, remark, transfer_keep_alive, SignedExtra, UncheckedExtrinsic, View, Library, Laws,
  Follows, Verified, Additional, additional_signed,
}
use pallet_rent.Node.Benchmarking.{
  period, Client, Builder, remark_builder, transfer_keep_alive_builder, create_benchmark_extrinsic,
  build,
}

-- The client's chain has the hashes `hash`, and `best` is its best block at both calls of `chain_info`.
pub record Quiet (client : Client) (hash : ℕ → ℕ) (best : ℕ) : Type 0 where
  pub genesis : client.block_hash 0 ≡ some (hash 0)
  pub first_hash : (client.chain_info 0).best_hash ≡ hash best
  pub second_number : (client.chain_info 1).best_number ≡ best

-- The call that a builder is named for.
abbrev pub built_call : Builder → RuntimeCall
built_call remark_builder = remark []
built_call (transfer_keep_alive_builder dest value) = transfer_keep_alive dest value

module _ {E Pair : Type 0} (lib : Library E Pair) where
  -- An extrinsic of that call, sender and nonce, without a tip, whose signature the runtime verifies.
  abbrev pub Valid : View → Pair → RuntimeCall → ℕ → UncheckedExtrinsic E → Type 0
  Valid v sender call nonce xt =
      Verified lib v xt
      × (xt.call ≡ call)
      × (xt.signer ≡ lib.account sender)
      × (xt.extra.check_nonce ≡ nonce)
      × (xt.extra.charge_transaction_payment ≡ 0)

module _ {E Pair : Type 0} (lib : Library E Pair) (laws : Laws lib) (client : Client) (hash : ℕ → ℕ)
    (best : ℕ) (quiet : Quiet client hash best) where
  birth-best : (n : ℕ) → best < n → n < best + period → lib.birth (lib.mortal period best) n ≡ best
  birth-best n after soon =
      laws.born period 11 best n refl (omega arith) (omega arith) (omega (arith, after)) soon

  create-Valid :
      (sender : Pair) (call : RuntimeCall) (nonce : ℕ) (v : View)
      → Follows hash v
      → best < v.number
      → v.number < best + period
      → (xt : UncheckedExtrinsic E) × (create_benchmark_extrinsic lib client sender call nonce
          ≡ some xt)
        × Valid lib v sender call nonce xt
  unfolding create_benchmark_extrinsic
  create-Valid sender call nonce v follows after soon =
      let birth = birth-best v.number after soon in
      let era =
        laws.era v (lib.mortal period best) (hash best)
          (rw birth (follows.recent best after (omega (arith, soon)))) in
      let spec = laws.spec v ∙ ap (λ w. w.spec_version) follows.current in
      let tx = laws.tx v ∙ ap (λ w. w.transaction_version) follows.current in
      let genesis = laws.genesis v (hash 0) follows.genesis in
      let extra : SignedExtra E = record {
        check_non_zero_sender = tt;
        check_spec_version = tt;
        check_tx_version = tt;
        check_genesis = tt;
        check_era = lib.mortal period best;
        check_nonce = nonce;
        check_weight = tt;
        charge_transaction_payment = 0;
      } in
      let additional : Additional =
        (tt, version.spec_version, version.transaction_version, hash 0, hash best, tt, tt, tt) in
      (
        record {
          call = call;
          signer = lib.account sender;
          signature = lib.sign sender (lib.encoded call extra additional);
          extra = extra;
        },
        rw (create_benchmark_extrinsic, quiet.genesis, quiet.first_hash, quiet.second_number) refl,
        (
          (additional, rw (additional_signed, era, spec, tx, genesis) refl, laws.verified sender _),
          refl,
          refl,
          refl,
          refl,
        ),
      )

  -- Where no block is imported between the two questions about the chain, `build` of either builder
  -- gives its call at the given nonce without a tip, signed for the account of Bob. The runtime finds
  -- that signature right in each block after the best one `best` and before `best + 2048`: version,
  -- genesis, era and signature agree with what the runtime's extensions read there. Whether the
  -- nonce and the fee are right for the account is not said.
  pub build-Verified :
      (bob : Pair) (b : Builder) (nonce : ℕ) (v : View)
      → Follows hash v
      → best < v.number
      → v.number < best + period
      → (xt : UncheckedExtrinsic E) × (build lib client bob b nonce ≡ some xt)
        × Valid lib v bob (built_call b) nonce xt
  unfolding build
  build-Verified bob remark_builder nonce v follows after soon =
      create-Valid bob (remark []) nonce v follows after soon
  build-Verified bob (transfer_keep_alive_builder dest value) nonce v follows after soon =
      create-Valid bob (transfer_keep_alive dest value) nonce v follows after soon
