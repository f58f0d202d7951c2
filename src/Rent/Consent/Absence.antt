-- ===== src/Rent/Consent/Absence.antt =====
-- The life of the chain of pallets/rent/src/lib.rs without calls of one account.
use pallet_rent.Prelude.{ℕ, ◌+◌, ◌≤◌, ◌≢◌, refl, none, arith}
use pallet_rent.Rent.Types.{Config, State}
use pallet_rent.Rent.Rules.{Post-elim}
use pallet_rent.Rent.Calls.{root, signed, unsigned, on_initialize}
use pallet_rent.Rent.Chain.{dispatch, Step, called, refused, block, elsewhere}
use pallet_rent.Rent.Chain.Origins.{unsigned_refused}
use pallet_rent.Rent.Properties.Payment.{CurrencyLaws}
use pallet_rent.Rent.Consent.{Once, Spares}
use pallet_rent.Rent.Consent.Calls.{dispatch-Spares}
use pallet_rent.Rent.Consent.Blocks.{on_initialize-Spares, Spares-trans}

module _ {L : Type 0} (cfg : Config L) (x : ℕ) where
  -- The step is not a call of `x`, and if it is one of other pallets, it takes nothing from `x`.
  abbrev pub Without : {s t : State L} → Step cfg s t → Type 0
  Without (called call (signed a) e) = a ≢ x
  Without (called call root e) = Unit
  Without (called call unsigned e) = Unit
  Without (refused call origin e t r) = Unit
  Without (block e) = Unit
  Without {s} (elsewhere l i) = cfg.free_balance s.balances x ≤ cfg.free_balance l x

  pub data Absence (s : State L) : State L → Type 0 where
    left : Absence s s
    away : {t u : State L} → Absence s t → (step : Step cfg t u) → Without step → Absence s u

  module _ (laws : CurrencyLaws cfg) where
    Step-Spares :
        {s t : State L} (step : Step cfg s t)
        → Without step
        → Once x s.lessee_collectibles
        → Spares cfg x s t
    Step-Spares {s} {t} (called call (signed a) e) other once =
        Post-elim (Spares cfg x s) (dispatch cfg call (signed a) s) tt t
          (dispatch-Spares cfg laws x a other s once call) e
    Step-Spares {s} (called call root e) other once =
        absurd (cc (unsigned_refused cfg call root s refl))
    Step-Spares {s} (called call unsigned e) other once =
        absurd (cc (unsigned_refused cfg call unsigned s refl))
    Step-Spares (refused call origin e t r) other once = record {
      not_less = omega arith;
      once = once;
    }
    Step-Spares {s} {t} (block e) other once =
        let n = s.block_number + 1 in
        let u = record s { block_number = n; extrinsic_index = none } in
        let all =
          Post-elim (Spares cfg x u) (on_initialize cfg n u) tt t
            (on_initialize-Spares cfg laws x n u once) e in
        record { not_less = all.not_less; once = all.once }
    Step-Spares (elsewhere l i) more once = record { not_less = more; once = once }

    -- No one pays without having agreed to: given what the currency documents of a transfer, an
    -- account none of whose rentals is recurring, and that calls nothing, has at least its old balance
    -- after any calls of others and any blocks, where other pallets take nothing from it either; and
    -- still none of its rentals is recurring.
    pub Absence-Spares :
        (s t : State L) → Once x s.lessee_collectibles → Absence s t → Spares cfg x s t
    Absence-Spares s t once left = record { not_less = omega arith; once = once }
    Absence-Spares s t once (away {t = u} before step other) =
        let first = Absence-Spares s u once before in
        Spares-trans cfg laws x s u t first (Step-Spares step other first.once)
