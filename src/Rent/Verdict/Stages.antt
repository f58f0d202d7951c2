-- ===== src/Rent/Verdict/Stages.antt =====
-- The outcome of `rent` and `extend_rent` of pallets/rent/src/lib.rs, as a list of what has to hold: an
-- independent description of when each succeeds, returns which error, panics, or never ends.
pub mod Funds
use pallet_rent.Prelude.{
  ℕ, ◌*◌, ◌%◌, Bool, false, not, ◌||◌, if◌then◌else◌, Option, none, some, List, [], ◌∷◌, ltb, leb,
  ◌==◌, is_none, eq_option, length, retain, update,
}
use pallet_rent.Rent.Types.{
  keep_alive, Transfer, moved, refused, Config, State, Error, no_collectible, no_lessee, not_lessee,
  rental_period_too_short, rental_period_too_long, cannot_rent_own_collectible, rent_not_available,
  not_enough_balance,
}
use pallet_rent.Rent.Effects.{Outcome, ok, err, panic, endless, module_error, currency_error}
use pallet_rent.Rent.Helpers.{u32_bound, add_blocks, mul_balance}
use pallet_rent.Rent.Calls.{within}

-- What has to hold, in the order in which it matters, with the outcome where it does not.
abbrev pub Stages : Type 0
Stages = List (Bool × Outcome (Unit {0}))

abbrev pub outcome_of : Stages → Outcome (Unit {0})
outcome_of [] = ok tt
outcome_of ((holds, otherwise) ∷ stages) =
    let rest = outcome_of stages in if holds then rest else otherwise

-- The stages of a stored value, if there is one.
abbrev pub given : {A : Type 0} → Option A → Outcome (Unit {0}) → (A → Stages) → Stages
given none otherwise f = (false, otherwise) ∷ []
given (some a) otherwise f = f a

abbrev pub error : Error → Outcome (Unit {0})
error e = err (module_error e)

abbrev pub currency_allows : {L : Type 0} → Transfer L → Stages → Stages
currency_allows (moved l) stages = stages
currency_allows (refused code) stages = (false, err (currency_error code)) ∷ []

module _ {L : Type 0} (cfg : Config L) (s : State L) where
  -- The payer has the amount, and the currency makes the transfer.
  abbrev pub pays : ℕ → ℕ → ℕ → Stages → Stages
  pays from to amount stages =
      (leb amount (cfg.free_balance s.balances from), error not_enough_balance)
      ∷ currency_allows (cfg.transfer s.balances from to amount keep_alive) stages

  abbrev pub has_room : (ℕ → List (ℕ × ℕ)) → ℕ → Bool
  has_room pending b = ltb (length (pending b)) cfg.maximum_rentables_per_block

  -- The wanted block or the one after the current block has room; else the search never ends.
  abbrev pub places : (ℕ → List (ℕ × ℕ)) → ℕ → Stages
  places pending wanted =
      (has_room pending wanted || has_room pending (add_blocks cfg s.block_number 1), endless) ∷ []

  -- `rent` by `a`. Whether the collectible is rentable does not matter.
  abbrev pub rent_stages : (a id blocks : ℕ) → Stages
  rent_stages a id blocks = given (s.collectibles id) (error no_collectible) λ c.
      (
        within (λ minimum. leb minimum blocks) c.minimum_rental_period,
        error rental_period_too_short,
      )
      ∷ (
        within (λ maximum. leb blocks maximum) c.maximum_rental_period,
        error rental_period_too_long,
      )
      ∷ (not (c.lessor == a), error cannot_rent_own_collectible)
      ∷ (is_none c.lessee, error rent_not_available)
      ∷ given c.price_per_block panic λ price.
        pays a c.lessor (mul_balance cfg price blocks)
          (places s.pending_rentals (add_blocks cfg s.block_number blocks))

  -- `extend_rent` by `a`. The blocks and the price have to fit a `u32`.
  abbrev pub extend_rent_stages : (a id blocks : ℕ) → Stages
  extend_rent_stages a id blocks = given (s.collectibles id) (error no_collectible) λ c.
      (not (is_none c.lessee), error no_lessee)
      ∷ (eq_option c.lessee (some a), error not_lessee)
      ∷ given (s.lessee_collectibles a c.collectible_id) (error no_collectible) λ r.
        given c.maximum_rental_period panic λ maximum.
          (leb (add_blocks cfg blocks r.next_rent_block) maximum, error rental_period_too_long)
          ∷ (ltb blocks u32_bound, panic)
          ∷ given c.price_per_block panic λ price.
            (ltb price u32_bound, panic)
            ∷ pays a c.lessor ((blocks * price) % u32_bound) (
                places
                  (update s.pending_rentals r.next_rent_block (
                    retain (λ e. not (e.0 == c.collectible_id))
                      (s.pending_rentals r.next_rent_block)))
                  (add_blocks cfg r.next_rent_block blocks))
