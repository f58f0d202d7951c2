-- ===== src/Rent/Samples/Runs.antt =====
-- The theorems about pallets/rent/src/lib.rs at concrete inputs: what single calls and blocks do.
use pallet_rent.Prelude.{
  ℕ, ◌+◌, ◌-◌, ◌*◌, ◌%◌, ◌≤◌, ◌≡◌, ◌≢◌, ◌⊎◌, refl, inl, inr, false, some, List, [], ◌∷◌, arith, leb,
  update, Bool-cases, ◌==◌,
}
use pallet_rent.Rent.Types.{Config, Collectible, keep_alive, moved}
use pallet_rent.Rent.Effects.{ok, endless}
use pallet_rent.Rent.Rules.{Post}
use pallet_rent.Rent.Failures.{Fails}
use pallet_rent.Rent.Helpers.{rounds, find_block, add_blocks, mul_balance, u32_bound}
use pallet_rent.Rent.Helpers.Search.{
  HasRoom, find_block-endless, find_block-ends, find_block-rounds,
}
use pallet_rent.Rent.Calls.{signed, on_initialize}
use pallet_rent.Rent.Calls
use pallet_rent.Rent.Calls.Renting.{Takes, rent-Takes, Prolongs, extend_rent-Prolongs}
use pallet_rent.Rent.Properties.Payment.{CurrencyLaws, Pays, rent-Pays, extend_rent-Pays}
use pallet_rent.Rent.Properties.Ending.{Ended}
use pallet_rent.Rent.Properties.Expiry.{on_initialize-Ended}
use pallet_rent.Rent.Properties.Refusals.{Tells, rent-Refused}
use pallet_rent.Rent.Samples.Examples.{renting-Leased}
use pallet_rent.Rent.Samples.{Ledger, test, rented, lease, offering, renting, move_funds}

-- Storage in which the blocks 2 and 11 are full, with room for one rental in each.
abbrev crowded : ℕ → List (ℕ × ℕ)
crowded b = (7, 2) ∷ []

abbrev narrow : Config Ledger
narrow = record test { maximum_rentables_per_block = 1 }

find_block-endless_example : find_block narrow 5 1 crowded 11 ≡ endless
find_block-endless_example =
    find_block-endless narrow 1 crowded 11 (λ h. omega arith) (λ h. omega arith) 5

find_block-ends_example :
    (b : ℕ) × (find_block narrow rounds 1 (λ x. []) 11 ≡ ok b)
    × HasRoom narrow 1 (λ x. []) b
    × ((b ≡ 11) ⊎ ((¬ HasRoom narrow 1 (λ x. []) 11) × (b ≡ add_blocks narrow 1 1)))
find_block-ends_example = find_block-ends narrow 1 (λ x. []) 11 (inl (omega arith))

find_block-rounds_example : find_block narrow 7 1 crowded 11 ≡ find_block narrow rounds 1 crowded 11
find_block-rounds_example = find_block-rounds narrow 1 crowded 5 11

rent-Takes_example :
    Post (Takes test offering 2 7 10 false) (Calls.rent test (signed 2) 7 10 false offering)
rent-Takes_example = rent-Takes test offering 2 7 10 false

extend_rent-Prolongs_example :
    Post (Prolongs test renting 2 7 3) (Calls.extend_rent test (signed 2) 7 3 renting)
extend_rent-Prolongs_example = extend_rent-Prolongs test renting 2 7 3

-- The currency of the samples does what is documented.
move_funds-cases :
    (l k : Ledger) (from to amount : ℕ)
    → from ≢ to
    → move_funds l from to amount keep_alive ≡ moved k
    → (amount ≤ l from) × (k ≡ update (update l from (l from - amount)) to (l to + amount))
move_funds-cases l k from to amount ne e = elim (Bool-cases (leb (amount + 500) (l from))) [
  | inl enough ↦ ground arith
  | inr short ↦ ground arith
]

pub test-CurrencyLaws : CurrencyLaws test
test-CurrencyLaws = record {
  debit = λ l k from to amount ne e.
      let (low, now) = move_funds-cases l k from to amount ne e in rw now (ground arith);
  credit = λ l k from to amount ne e.
      let (low, now) = move_funds-cases l k from to amount ne e in rw now (ground arith);
  others = λ l k from to amount x nf nt e. elim (Bool-cases (from == to)) [
    | inl same ↦ ground arith
    | inr other ↦
        let (low, now) = move_funds-cases l k from to amount (ground arith) e in
        rw now (ground arith)
  ];
}

rent-Pays_example :
    Post
      (λ t.
        (c : Collectible) × (price : ℕ) × (offering.collectibles 7 ≡ some c)
        × (c.price_per_block ≡ some price)
        × Pays test test-CurrencyLaws offering t 2 c.lessor (mul_balance test price 10))
      (Calls.rent test (signed 2) 7 10 false offering)
rent-Pays_example = rent-Pays test test-CurrencyLaws 2 7 10 false offering

extend_rent-Pays_example :
    Post
      (λ t.
        (c : Collectible) × (price : ℕ) × (renting.collectibles 7 ≡ some c)
        × (c.price_per_block ≡ some price)
        × Pays test test-CurrencyLaws renting t 2 c.lessor (3 * price % u32_bound))
      (Calls.extend_rent test (signed 2) 7 3 renting)
extend_rent-Pays_example = extend_rent-Pays test test-CurrencyLaws 2 7 3 renting renting-Leased

on_initialize-Ended_example : Post (Ended 7 2 rented) (on_initialize test 11 renting)
on_initialize-Ended_example =
    on_initialize-Ended test 11 7 2 rented lease renting renting-Leased (inl (refl, refl)) refl refl
      refl

rent-Refused_example :
    Fails (Tells test renting 3 7 10) (Calls.rent test (signed 3) 7 10 false renting)
rent-Refused_example = rent-Refused test renting 3 7 10 false
