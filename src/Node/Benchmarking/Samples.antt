-- ===== src/Node/Benchmarking/Samples.antt =====
-- Runs of the extrinsics of node/src/benchmarking.rs, with concrete libraries and a concrete chain.
use pallet_rent.Prelude.{
  ℕ, ◌+◌, ◌≡◌, refl, ap, Option, none, some, List, [], ◌∷◌, ◌++◌, if◌then◌else◌, leb, ◌==◌, ==_refl,
  arith,
}
use pallet_rent.Runtime.{version}
use pallet_rent.Runtime.Transactions.{
  RuntimeCall, remark, transfer_keep_alive, UncheckedExtrinsic, View, Library, Laws, Follows,
}
use pallet_rent.Node.Benchmarking.{
  checked_next_power_of_two, period, Client, transfer_keep_alive_builder, build,
}
use pallet_rent.Node.Benchmarking.Valid.{Quiet, Valid, build-Verified}

next_power_of_two : checked_next_power_of_two 2400 ≡ some 4096
next_power_of_two = refl

-- Above 2^31 the next power is not a `u32`.
no_next_power_of_two : checked_next_power_of_two 2147483649 ≡ none
no_next_power_of_two = refl

period_2048 : period ≡ 2048
period_2048 = refl

abbrev total : List ℕ → ℕ
total [] = 0
total (n ∷ ns) = n + total ns

abbrev encoded_call : RuntimeCall → List ℕ
encoded_call (remark bytes) = 0 ∷ bytes
encoded_call (transfer_keep_alive dest value) = 1 ∷ dest ∷ value ∷ []

-- An era with its period and its first block.
abbrev Era : Type 0
Era = ℕ × ℕ

abbrev hash : ℕ → ℕ
hash n = 100 + n

abbrev or_zero : Option ℕ → ℕ
or_zero none = 0
or_zero (some n) = n

-- A signature is the sum of the payload and the key.
abbrev library : Library Era ℕ
library = record {
  mortal = λ p n. (p, n);
  birth = λ e n. e.1;
  spec_version_signed = λ v. v.version.spec_version;
  tx_version_signed = λ v. v.version.transaction_version;
  genesis_signed = λ v. or_zero (v.block_hash 0);
  era_signed = λ v e. v.block_hash e.1;
  account = λ p. p;
  sign = λ p m. p + total m;
  verify = λ a m s. (a + total m) == s;
  encoded = λ call x a.
      encoded_call call
      ++ (x.check_era.0 ∷ x.check_era.1 ∷ x.check_nonce ∷ x.charge_transaction_payment ∷ a.1 ∷ a.2
          ∷ a.3 ∷ a.4 ∷ []);
}

library-Laws : Laws library
library-Laws = record {
  born = λ p k current n power low high before within. refl;
  spec = λ v. refl;
  tx = λ v. refl;
  genesis = λ v h eq. ap or_zero eq;
  era = λ v e h eq. eq;
  verified = λ p m. ==_refl (p + total m);
}

abbrev client : Client
client = record {
  block_hash = λ n. if leb n 7 then some (hash n) else none;
  chain_info = λ n. record { best_hash = hash 7; best_number = 7 };
}

client-Quiet : Quiet client hash 7
client-Quiet = record { genesis = refl; first_hash = refl; second_number = refl }

-- The view of block 8.
abbrev next : View
next = record { version = version; number = 8; block_hash = λ n. some (hash n) }

next-Follows : Follows hash next
next-Follows = record { current = refl; genesis = refl; recent = λ j before kept. refl }

build-Verified_example :
    (xt : UncheckedExtrinsic Era) × (build library client 5 (transfer_keep_alive_builder 4 500) 3
      ≡ some xt)
    × Valid library next 5 (transfer_keep_alive 4 500) 3 xt
build-Verified_example =
    build-Verified library library-Laws client hash 7 client-Quiet 5
      (transfer_keep_alive_builder 4 500) 3 next next-Follows (omega arith) (omega arith)
