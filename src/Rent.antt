-- ===== src/Rent.antt =====
-- The rent pallet (pallets/rent/src/lib.rs).
pub mod Types
pub mod Effects
pub mod Rules
pub mod Failures
pub mod Helpers
pub mod Internal
pub mod Calls
pub mod Invariant
pub mod Properties
pub mod Chain
pub mod Market
pub mod Schedule
pub mod Verdict
pub mod Consent
pub mod Mock
pub mod Samples
