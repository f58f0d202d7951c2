-- ===== src/Rent/Schedule.antt =====
-- The schedule of pallets/rent/src/lib.rs: each rental is pending in the block in which it is due, and
-- that block is still to come.
pub mod Changes
pub mod Calls
pub mod Blocks
pub mod Course
use pallet_rent.Prelude.{ℕ, ◌+◌, ◌≤◌, ◌<◌, ◌≡◌, Option, some, List}
use pallet_rent.Rent.Types.{RentalPeriodConfig, State}
use pallet_rent.Rent.Invariant.Entries.{Entry}
use pallet_rent.Rent.Invariant.Occurrences.{Occurs}

-- Each rental is due in the block `low` or later, renews by 1 to `longest` blocks, and is among the
-- entries of the block in which it is due.
abbrev pub Due : ℕ → ℕ → (ℕ → ℕ → Option RentalPeriodConfig) → (ℕ → List Entry) → Type 0
Due low longest ls ps =
    (a id : ℕ) (r : RentalPeriodConfig)
    → ls a id ≡ some r
    → (low ≤ r.next_rent_block)
      × (0 < r.rental_periodic_interval)
      × (r.rental_periodic_interval ≤ longest)
      × Occurs id a (ps r.next_rent_block)

-- Each rental is due after the current block.
abbrev pub Scheduled : {L : Type 0} → ℕ → State L → Type 0
Scheduled longest s = Due (s.block_number + 1) longest s.lessee_collectibles s.pending_rentals
