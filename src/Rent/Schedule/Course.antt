-- ===== src/Rent/Schedule/Course.antt =====
-- From the genesis block of the chain, no rental of pallets/rent/src/lib.rs is ever lost from the schedule.
use pallet_rent.Prelude.{ℕ, ◌+◌, ◌^◌, ◌<◌, refl, none}
use pallet_rent.Rent.Types.{Config, State}
use pallet_rent.Rent.Rules.{Post-elim}
use pallet_rent.Rent.Calls.{root, signed, unsigned, on_initialize}
use pallet_rent.Rent.Invariant.ProcessKept.{WellFormed}
use pallet_rent.Rent.Chain.{dispatch, Step, called, refused, block, elsewhere, genesis}
use pallet_rent.Rent.Chain.Reachable.{Step-WellFormed, genesis-WellFormed}
use pallet_rent.Rent.Chain.Origins.{unsigned_refused}
use pallet_rent.Rent.Schedule.{Scheduled}
use pallet_rent.Rent.Schedule.Calls.{Careful, dispatch-Scheduled}
use pallet_rent.Rent.Schedule.Blocks.{on_initialize-Scheduled}

module _ {L : Type 0} (cfg : Config L) (longest : ℕ) where
  -- The calls of the step are careful, and no block number that it makes wraps around.
  abbrev pub Mindful : {s t : State L} → Step cfg s t → Type 0
  Mindful {s} (called call (signed a) e) = Careful cfg longest s a call
  Mindful (called call root e) = Unit
  Mindful (called call unsigned e) = Unit
  Mindful (refused call origin x t e) = Unit
  Mindful {s} (block e) = s.block_number + 1 + longest < 2 ^ cfg.block_bits
  Mindful (elsewhere l i) = Unit

  pub data Course (s : State L) : State L → Type 0 where
    start : Course s s
    went : {t u : State L} → Course s t → (step : Step cfg t u) → Mindful step → Course s u

  Step-Scheduled :
      {s t : State L} (step : Step cfg s t)
      → Mindful step
      → WellFormed cfg s
      → Scheduled longest s
      → Scheduled longest t
  Step-Scheduled {s} {t} (called call (signed a) e) mindful w due =
      Post-elim (Scheduled longest) (dispatch cfg call (signed a) s) tt t
        (dispatch-Scheduled cfg longest s a due call w.leased mindful) e
  Step-Scheduled {s} (called call root e) mindful w due =
      absurd (cc (unsigned_refused cfg call root s refl))
  Step-Scheduled {s} (called call unsigned e) mindful w due =
      absurd (cc (unsigned_refused cfg call unsigned s refl))
  Step-Scheduled (refused call origin x t e) mindful w due = due
  Step-Scheduled {s} {t} (block e) mindful w due =
      let n = s.block_number + 1 in
      let u = record s { block_number = n; extrinsic_index = none } in
      Post-elim (Scheduled longest) (on_initialize cfg n u) tt t
        (on_initialize-Scheduled cfg longest n mindful u w.leased refl due) e
  Step-Scheduled (elsewhere l i) mindful w due = due

  Course-Scheduled :
      {s t : State L}
      → Course s t
      → WellFormed cfg s
      → Scheduled longest s
      → WellFormed cfg t × Scheduled longest t
  Course-Scheduled start w due = (w, due)
  Course-Scheduled (went c step mindful) w due =
      let (w', due') = Course-Scheduled c w due in
      (Step-WellFormed cfg step w', Step-Scheduled step mindful w' due')

  -- No rental is lost: in every storage that is reached from the genesis block, each rental is due in
  -- a block that is still to come and is among the pending entries of that block, and its interval is
  -- 1 to `longest` blocks, where all rentals were for 1 to `longest` blocks and no sum of block
  -- numbers wrapped around: neither those of the rentals and extensions, nor that of a block's number
  -- and `longest`.
  pub genesis-Course-Scheduled : (l : L) (t : State L) → Course (genesis l) t → Scheduled longest t
  genesis-Course-Scheduled l t c =
      (Course-Scheduled c (genesis-WellFormed cfg l) (λ a id r e. absurd (cc))).1
