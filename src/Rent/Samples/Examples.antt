-- ===== src/Rent/Samples/Examples.antt =====
-- The theorems about pallets/rent/src/lib.rs at concrete inputs: well-formed storage.
use pallet_rent.Prelude.{◌≡◌, refl, inl, inr, false, [], arith, update, Bool-cases, ◌==◌}
use pallet_rent.Rent.Types.{State}
use pallet_rent.Rent.Rules.{state_of, Post, Runs}
use pallet_rent.Rent.Internal.{do_process_rental_periods, process_rentals}
use pallet_rent.Rent.Calls.{signed, on_initialize}
use pallet_rent.Rent.Calls
use pallet_rent.Rent.Invariant.CallLeases.{Leased}
use pallet_rent.Rent.Invariant.ProcessKept.{Kept, WellFormed, on_initialize-WellFormed}
use pallet_rent.Rent.Chain.{Call, dispatch, called, block, Reach, here, next, genesis}
use pallet_rent.Rent.Chain.Reachable.{dispatch-WellFormed, genesis-Reach-WellFormed}
use pallet_rent.Rent.Samples.{Ledger, test, funds, offering, renting}

offering-Leased : Leased offering
offering-Leased = record {
  fits = λ id c e. ground arith;
  rented = λ a id h. absurd (cc);
  leased = λ a id h. absurd (ground arith);
  pending = λ b. tt;
  distinct = λ b id. omega arith;
}

offering-Kept : Kept test offering
offering-Kept = record {
  held = record {
    owned = record { keyed = λ id c e. ground arith; owned = λ a id. ground arith };
    listed = record { listed = λ id h. ground arith };
    entitled = record { allowed = λ a id h. absurd (omega arith) };
  };
  bounded = record {
    lessors = λ a. ground arith;
    equips = λ a. omega arith;
    rentables = omega arith;
    pending = λ b. omega arith;
  };
}

pub offering-WellFormed : WellFormed test offering
offering-WellFormed = record { leased = offering-Leased; kept = offering-Kept }

pub renting-Leased : Leased renting
renting-Leased = record {
  fits = λ id c e. ground arith;
  rented = λ a id h. ground arith;
  leased = λ a id h. ground arith;
  pending = λ b. elim (Bool-cases (11 == b)) [
    | inl hit ↦ rw hit (ground arith, tt)
    | inr miss ↦ rw miss tt
  ];
  distinct = λ b id. ground arith;
}

renting-Kept : Kept test renting
renting-Kept = record {
  held = record {
    owned = record { keyed = λ id c e. ground arith; owned = λ a id. ground arith };
    listed = record { listed = λ id h. ground arith };
    entitled = record { allowed = λ a id h. absurd (omega arith) };
  };
  bounded = record {
    lessors = λ a. ground arith;
    equips = λ a. omega arith;
    rentables = omega arith;
    pending = λ b. ground arith;
  };
}

pub renting-WellFormed : WellFormed test renting
renting-WellFormed = record { leased = renting-Leased; kept = renting-Kept }

-- Block 1 begins and account 1 mints a collectible.
abbrev first_block : State Ledger
first_block = record (genesis funds) { block_number = 1; pending_rentals = update (λ b. []) 1 [] }

abbrev first_minted : State Ledger
first_minted = state_of (Calls.mint test (signed 1) first_block)

first_minted-Reach : Reach test (genesis funds) first_minted
unfolding dispatch Calls.mint on_initialize do_process_rental_periods process_rentals
first_minted-Reach = next (next here (block refl)) (called Call.mint (signed 1) refl)

genesis-Reach-WellFormed_example : WellFormed test first_minted
genesis-Reach-WellFormed_example =
    genesis-Reach-WellFormed test funds first_minted first_minted-Reach

dispatch-WellFormed_example :
    Post (WellFormed test) (dispatch test (Call.rent 7 10 false) (signed 2) offering)
dispatch-WellFormed_example =
    dispatch-WellFormed test (Call.rent 7 10 false) (signed 2) offering offering-WellFormed

on_initialize-WellFormed_example :
    Runs (λ t. WellFormed test t × (t.pending_rentals 11 ≡ [])) (on_initialize test 11 renting)
on_initialize-WellFormed_example = on_initialize-WellFormed test 11 renting renting-WellFormed
