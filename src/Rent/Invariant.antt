-- ===== src/Rent/Invariant.antt =====
-- The well-formedness of the pallet's storage (pallets/rent/src/lib.rs), one child for each part.
pub mod Entries
pub mod Occurrences
pub mod Leases
pub mod CallLeases
pub mod RentLeases
pub mod Holdings
pub mod CallHoldings
pub mod Bounds
pub mod CallBounds
pub mod ProcessKept
pub mod ProcessLeases
