-- ===== src/Rent/Verdict.antt =====
-- The outcome of the calls of pallets/rent/src/lib.rs that move no funds, as a list of checks: an
-- independent description of what each returns, without the writes in between.
pub mod Rules
pub mod Calls
pub mod Stages
use pallet_rent.Prelude.{
  ℕ, Bool, true, false, not, ◌&&◌, ◌||◌, if◌then◌else◌, Option, none, some, List, [], ◌∷◌, ltb, leb,
  ◌==◌, is_none, eq_option, get_or, length,
}
use pallet_rent.Rent.Types.{
  Config, State, Error, duplicate_collectible, no_collectible, no_lessee, not_lessor, not_lessee,
  too_many_collectibles, too_many_collectibles_owned, too_many_collectibles_equiped,
  not_allowed_while_rented, minimum_must_be_less_than_maximum, no_account_found_for_collectible,
}
use pallet_rent.Rent.Effects.{Outcome, ok, err, panic, endless, module_error}
use pallet_rent.Rent.Helpers.{gen_collectible_id}
use pallet_rent.Rent.Chain.{Call}

-- What is checked, in the order in which it is, with the error where it is not so.
abbrev pub Checks : Type 0
Checks = List (Bool × Error)

abbrev pub verdict_of : Checks → Outcome (Unit {0})
verdict_of [] = ok tt
verdict_of ((holds, e) ∷ checks) =
    let rest = verdict_of checks in if holds then rest else err (module_error e)

-- The outcome of a function, less its value.
abbrev pub without_value : {A : Type 0} → Outcome A → Outcome (Unit {0})
without_value (ok a) = ok tt
without_value (err e) = err e
without_value panic = panic
without_value endless = endless

-- Calls that neither read nor move balances.
abbrev pub moves_funds : Call → Bool
moves_funds (Call.rent id blocks recurring) = true
moves_funds (Call.extend_rent id blocks) = true
moves_funds _ = false

-- Checks of a stored value, if there is one.
abbrev pub found : {A : Type 0} → Option A → Error → (A → Checks) → Checks
found none e f = (false, e) ∷ []
found (some a) e f = f a

module _ {L : Type 0} (cfg : Config L) (s : State L) (a : ℕ) where
  -- What is checked where `a` calls, before or between the writes.
  abbrev pub checks : Call → Checks
  checks Call.mint =
      (is_none (s.collectibles (gen_collectible_id cfg s)), duplicate_collectible)
      ∷ (
        ltb (length (get_or (s.lessor_collectibles a) [])) cfg.maximum_owned,
        too_many_collectibles_owned,
      )
      ∷ []
  checks (Call.burn id) =
      found (s.collectibles id) no_collectible
        λ c. (c.lessor == a, not_lessor) ∷ (is_none c.lessee, not_allowed_while_rented) ∷ []
  checks (Call.set_rentable id price minimum maximum) =
      found (s.collectibles id) no_collectible λ c.
        (c.lessor == a, not_lessor)
        ∷ (leb minimum maximum, minimum_must_be_less_than_maximum)
        ∷ (is_none c.lessee, not_allowed_while_rented)
        ∷ (ltb (length s.rentable_collectibles) cfg.maximum_owned, too_many_collectibles)
        ∷ []
  checks (Call.set_unrentable id) =
      found (s.collectibles id) no_collectible λ c. (c.lessor == a, not_lessor) ∷ []
  checks (Call.set_recurring id recurring) = found (s.collectibles id) no_collectible λ c.
      (not (is_none c.lessee), no_lessee)
      ∷ (eq_option c.lessee (some a), not_lessee)
      ∷ found (s.lessee_collectibles a id) no_collectible (λ r. [])
  checks (Call.equip_collectible id) = found (s.collectibles id) no_collectible λ c.
      ((c.lessor == a) || not (is_none c.lessee), no_account_found_for_collectible)
      ∷ ((c.lessor == a) || eq_option c.lessee (some a), not_lessee)
      ∷ (not ((c.lessor == a) && c.rentable), not_allowed_while_rented)
      ∷ (
        ltb (length (get_or (s.account_equips a) [])) cfg.maximum_owned,
        too_many_collectibles_equiped,
      )
      ∷ []
  checks (Call.unequip_collectible id) =
      found (s.collectibles id) no_collectible
        λ c. ((c.lessor == a) || eq_option c.lessee (some a), not_lessor) ∷ []
  checks (Call.rent id blocks recurring) = []
  checks (Call.extend_rent id blocks) = []
