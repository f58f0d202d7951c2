-- ===== src/Runtime/Prices.antt =====
-- Prices on the runtime of runtime/src/lib.rs, whose balances have 128 bits and whose block numbers 32.
use native.Mathlib.Nat.{mod-eq_of_lt, mul-le-mul}
use pallet_rent.Prelude.{ℕ, ◌-◌, ◌*◌, ◌^◌, ◌≤◌, ◌<◌, ◌≡◌, Bool, some, arith}
use pallet_rent.Rent.Types.{Collectible, State}
use pallet_rent.Rent.Rules.{Post, Post-map}
use pallet_rent.Rent.Helpers.{mul_balance}
use pallet_rent.Rent.Calls.{signed, rent}
use pallet_rent.Rent.Mock.{Externals}
use pallet_rent.Rent.Properties.Payment.{CurrencyLaws, Pays, rent-Pays}
use pallet_rent.Runtime.{runtime_config}

module _ {L : Type 0} (x : Externals L) (laws : CurrencyLaws (runtime_config x)) where
  exact_product :
      (price blocks : ℕ)
      → price < 2 ^ 96
      → blocks < 2 ^ 32
      → mul_balance (runtime_config x) price blocks ≡ price * blocks
  exact_product price blocks cheap short =
      let at_most : price * blocks ≤ (2 ^ 96 - 1) * (2 ^ 32 - 1) =
        mul-le-mul {n₂ = 2 ^ 96 - 1} {m₂ = 2 ^ 32 - 1} (omega (arith, cheap))
          (omega (arith, short)) in
      mod-eq_of_lt (omega (arith, at_most))

  -- On the runtime, a successful `rent` by `a` for a number of blocks that a `u32` holds, of a
  -- collectible that has no price of 2 ^ 96 or more, moves exactly the price times the number of
  -- blocks from `a` to the lessor, and changes no other balance.
  pub runtime_rent-Pays :
      (a id blocks : ℕ) (recurring : Bool) (s : State L)
      → blocks < 2 ^ 32
      → ((c : Collectible) (price : ℕ)
          → s.collectibles id ≡ some c
          → c.price_per_block ≡ some price
          → price < 2 ^ 96)
      → Post
          (λ t.
            (c : Collectible) × (price : ℕ) × (s.collectibles id ≡ some c)
            × (c.price_per_block ≡ some price)
            × Pays (runtime_config x) laws s t a c.lessor (price * blocks))
          (rent (runtime_config x) (signed a) id blocks recurring s)
  runtime_rent-Pays a id blocks recurring s short cheap =
      Post-map _ _ (rent (runtime_config x) (signed a) id blocks recurring s)
        (λ t (c, price, known, priced, pays). (
          c,
          price,
          known,
          priced,
          rw⁻¹ (exact_product price blocks (cheap c price known priced) short) pays,
        ))
        (rent-Pays (runtime_config x) laws a id blocks recurring s)
