-- ===== src/Rent/Properties/Success.antt =====
-- When `rent` of pallets/rent/src/lib.rs succeeds.
