-- ===== src/Rent/Helpers/Search.antt =====
-- The `while` loop of `append_pending_rental_to_available_block` in pallets/rent/src/lib.rs: when it
-- ends, and with which block.
use pallet_rent.Prelude.{ℕ, zero, suc, ◌<◌, ◌≡◌, ◌⊎◌, inl, inr, refl, List, arith, length}
use native.Mathlib.Decide.{dec_lt}
use pallet_rent.Rent.Types.{Config}
use pallet_rent.Rent.Effects.{ok, endless}
use pallet_rent.Rent.Helpers.{add_blocks, rounds, find_block}

module _ {L : Type 0} (cfg : Config L) (now : ℕ) (pending : ℕ → List (ℕ × ℕ)) where
  -- The block has room for one more rental.
  abbrev pub HasRoom : ℕ → Type 0
  HasRoom b = length (pending b) < cfg.maximum_rentables_per_block

  -- From the block after the current one the loop goes nowhere else.
  find_block_next :
      (fuel : ℕ)
      → ¬ HasRoom (add_blocks cfg now 1)
      → find_block cfg fuel now pending (add_blocks cfg now 1) ≡ endless
  unfolding find_block
  find_block_next zero full = refl
  find_block_next (suc fuel) full = ground (arith, find_block_next fuel full)

  -- If the first block and the block after the current one are both full, the loop does not end,
  -- however many rounds it is given.
  pub find_block-endless :
      (block : ℕ)
      → ¬ HasRoom block
      → ¬ HasRoom (add_blocks cfg now 1)
      → (fuel : ℕ) → find_block cfg fuel now pending block ≡ endless
  unfolding find_block
  find_block-endless block full next_full zero = refl
  find_block-endless block full next_full (suc fuel) =
      ground (arith, find_block_next fuel next_full)

  -- If the first block or the block after the current one has room, the loop ends within two rounds,
  -- with one of the two that has room, and with the first block if that has.
  pub find_block-ends :
      (block : ℕ)
      → HasRoom block ⊎ HasRoom (add_blocks cfg now 1)
      → (b : ℕ) × (find_block cfg rounds now pending block ≡ ok b)
        × HasRoom b
        × ((b ≡ block) ⊎ ((¬ HasRoom block) × (b ≡ add_blocks cfg now 1)))
  unfolding find_block
  find_block-ends block room =
      elim (dec_lt (length (pending block)) cfg.maximum_rentables_per_block) [
        | yes here ↦ (block, ground arith, here, inl refl)
        | no full ↦ (add_blocks cfg now 1, ground arith, ground arith, inr (full, refl))
      ]

  -- From the second round on, every number of rounds gives what the two rounds of the model give.
  pub find_block-rounds :
      (fuel block : ℕ)
      → find_block cfg (suc (suc fuel)) now pending block ≡ find_block cfg rounds now pending block
  unfolding find_block
  find_block-rounds fuel block =
      elim (dec_lt (length (pending (add_blocks cfg now 1))) cfg.maximum_rentables_per_block) [
        | yes room ↦ ground arith
        | no full ↦ ground (arith, find_block_next fuel full)
      ]

  -- The block that the loop ends with is the first block or the one after the current one.
  pub find_block-where :
      (block b : ℕ)
      → find_block cfg rounds now pending block ≡ ok b
      → (b ≡ block) ⊎ (b ≡ add_blocks cfg now 1)
  unfolding find_block
  find_block-where block b found =
      elim (dec_lt (length (pending block)) cfg.maximum_rentables_per_block) [
        | yes here ↦ inl (ground arith)
        | no full ↦
            elim (dec_lt (length (pending (add_blocks cfg now 1)))
              cfg.maximum_rentables_per_block) [
                | yes room ↦ inr (ground arith)
                | no none_left ↦ absurd (ground arith)
              ]
      ]
