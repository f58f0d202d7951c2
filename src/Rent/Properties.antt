-- ===== src/Rent/Properties.antt =====
-- What the functions of pallets/rent/src/lib.rs promise, one child for each subject.
pub mod Payment
pub mod Ending
pub mod Expiry
pub mod Refusals
pub mod Success
pub mod Authority
pub mod Halting
pub mod Renewal
pub mod Atomic
pub mod Extension
pub mod RoundTrips
pub mod Unpriced
