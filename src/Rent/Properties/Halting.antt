-- ===== src/Rent/Properties/Halting.antt =====
-- When the hook `on_initialize` of pallets/rent/src/lib.rs ends.
use pallet_rent.Prelude.{
  ℕ, ◌+◌, ◌≤◌, ◌≡◌, inl, inr, refl, Bool, true, false, not, ◌||◌, Option, none, some, List, [], ◌∷◌,
  ◌++◌, arith, is_none, if◌then◌else◌, length, length-append,
}
use pallet_rent.Rent.Types.{
  Config, Collectible, RentalPeriodConfig, Event, rent_payed, rental_ended, error_transfering_rent,
  State,
}
use pallet_rent.Rent.Effects.{Outcome, ok, err, panic, endless, M, continue, unwrap, when, ◌>>=◌}
use pallet_rent.Rent.Rules.{Runs}
use pallet_rent.Rent.Helpers.{add_blocks, mul_balance, append_pending_rental_to_available_block}
use pallet_rent.Rent.Helpers.Results.{transfer_funds-cases, remove_lessee-ok}
use pallet_rent.Rent.Helpers.Search.{find_block-ends}
use pallet_rent.Rent.Internal.{
  end_rental, append_rental, renew_rental, charge_rental, process_rental, process_rentals,
  do_process_rental_periods,
}
use pallet_rent.Rent.Calls.{on_initialize}
use pallet_rent.Rent.Invariant.Entries.{Entry}
use pallet_rent.Rent.Invariant.ProcessKept.{WellFormed, on_initialize-WellFormed}

-- The function ends, and what holds if it returns a value.
abbrev pub Halts : {L A : Type 0} → (State L → Type 0) → Outcome A × State L → Type 0
Halts P (ok _, s) = P s
Halts P (err _, s) = Unit
Halts P (panic, s) = Unit
Halts P (endless, s) = ⊥

Halts-continue :
    {L A B : Type 0} (Q P : State L → Type 0) (r : Outcome A × State L) (f : A → M L B)
    → Halts Q r
    → ((a : A) (t : State L) → Q t → Halts P (f a t))
    → Halts P (continue f r)
Halts-continue Q P (ok a, t) f q h = h a t q
Halts-continue Q P (err e, t) f q h = tt
Halts-continue Q P (panic, t) f q h = tt
Halts-continue Q P (endless, t) f q h = q

Halts-unwrap :
    {L A B : Type 0} (P : State L → Type 0) (o : Option A) (f : A → M L B) (s : State L)
    → ((a : A) → Halts P (f a s))
    → Halts P ((unwrap o >>= f) s)
Halts-unwrap P none f s h = tt
Halts-unwrap P (some a) f s h = h a

Halts-if :
    {L A : Type 0} (P : State L → Type 0) (b : Bool) (m k : M L A) (s : State L)
    → Halts P (m s)
    → Halts P (k s)
    → Halts P ((if b then m else k) s)
Halts-if P true m k s h i = h
Halts-if P false m k s h i = i

Halts-when :
    {L : Type 0} (P : State L → Type 0) (b : Bool) (m : M L (Unit {0})) (s : State L)
    → Halts P (m s)
    → P s
    → Halts P (when b m s)
Halts-when P true m s h i = h
Halts-when P false m s h i = i

-- A function that ends and neither errs nor panics returns a value.
Halts-Runs :
    {L : Type 0} (P Q : State L → Type 0) (r : Outcome (Unit {0}) × State L)
    → Halts Q r
    → Runs P r
    → (t : State L) × (r ≡ (ok tt, t)) × P t
Halts-Runs P Q (ok u, t) q p = (t, refl, p)
Halts-Runs P Q (err x, t) q p = absurd p
Halts-Runs P Q (panic, t) q p = absurd p
Halts-Runs P Q (endless, t) q p = absurd q

module _ {L : Type 0} (cfg : Config L) (now : ℕ) where
  -- The block after the current one has room for `k` more rentals.
  record Spare (k : ℕ) (s : State L) : Type 0 where
    at : s.block_number ≡ now
    spare : length (s.pending_rentals (add_blocks cfg now 1)) + k ≤ cfg.maximum_rentables_per_block

  end_rental-Spare :
      (report : ℕ → ℕ → ℕ → Event) (a id k : ℕ) (c : Collectible) (s : State L)
      → Spare (k + 1) s
      → Halts (Spare k) (end_rental cfg report a id c s)
  end_rental-Spare report a id k c s room =
      let (evs, removed) = remove_lessee-ok a c s in
      rw removed (record { at = room.at; spare = ground (arith, room.spare) })

  append_rental-Spare :
      (a id k : ℕ) (r : RentalPeriodConfig) (s : State L)
      → Spare (k + 1) s
      → Halts (Spare k) (append_rental cfg a id r s)
  unfolding append_rental append_pending_rental_to_available_block
  append_rental-Spare a id k r s room =
      let next = add_blocks cfg now 1 in
      let old = s.pending_rentals next in
      let (b, found, roomy, which) =
        find_block-ends cfg s.block_number s.pending_rentals
          (add_blocks cfg s.block_number r.rental_periodic_interval)
          (inr (rw room.at (omega (arith, room.spare)))) in
      rw found (record {
        at = room.at;
        spare = ground (arith, room.spare, length-append old ((id, a) ∷ []));
      })

  charge_rental-Spare :
      (a id k : ℕ) (c : Collectible) (r : RentalPeriodConfig) (s : State L)
      → Spare (k + 1) s
      → Halts (Spare k) (charge_rental cfg a id c r s)
  unfolding charge_rental renew_rental
  charge_rental-Spare a id k c r s room = Halts-unwrap (Spare k) c.price_per_block _ s λ price.
      let total = mul_balance cfg price r.rental_periodic_interval in
      elim (transfer_funds-cases cfg a c.lessor total s) [
        | inl (l, paid) ↦ rw paid (
            let t = record s {
              balances = l;
              events = s.events ++ rent_payed c.lessor a id total ∷ [];
            } in
            Halts-when (Spare k) r.recurring (append_rental cfg a id r) t
              (append_rental-Spare a id k r t (record { at = room.at; spare = room.spare }))
              (record { at = room.at; spare = omega (arith, room.spare) }))
        | inr (x, unpaid) ↦ rw unpaid (end_rental-Spare error_transfering_rent a id k c s room)
      ]

  process_rental-Spare :
      (a id k : ℕ) (s : State L) → Spare (k + 1) s → Halts (Spare k) (process_rental cfg (id, a) s)
  unfolding process_rental
  process_rental-Spare a id k s room = Halts-unwrap (Spare k) (s.lessee_collectibles a id) _ s λ r.
      Halts-unwrap (Spare k) (s.collectibles id) _ s λ c.
        Halts-if (Spare k) (not c.rentable || is_none c.lessee || not r.recurring)
          (end_rental cfg rental_ended a id c) (charge_rental cfg a id c r) s
          (end_rental-Spare rental_ended a id k c s room) (charge_rental-Spare a id k c r s room)

  process_rentals-Spare :
      (rentals : List Entry) (s : State L)
      → Spare (length rentals) s
      → Halts (Spare 0) (process_rentals cfg rentals s)
  unfolding process_rentals
  process_rentals-Spare [] s room = room
  process_rentals-Spare ((id, a) ∷ rest) s room =
      Halts-continue (Spare (length rest)) (Spare 0) (process_rental cfg (id, a) s) _
        (process_rental-Spare a id (length rest) s
          (record { at = room.at; spare = omega (arith, room.spare) }))
        λ u t later. process_rentals-Spare rest t later

-- On well-formed storage, if the block after the current one has room for all rentals that are
-- pending in the block `n`, the hook `on_initialize` of `n` returns, and leaves well-formed storage
-- in which nothing is pending in `n`.
pub on_initialize-returns :
    {L : Type 0} (cfg : Config L) (n : ℕ) (s : State L)
    → WellFormed cfg s
    → length (s.pending_rentals (add_blocks cfg s.block_number 1)) + length (s.pending_rentals n)
      ≤ cfg.maximum_rentables_per_block
    → (t : State L) × (on_initialize cfg n s ≡ (ok tt, t))
      × WellFormed cfg t
      × (t.pending_rentals n ≡ [])
unfolding on_initialize do_process_rental_periods
on_initialize-returns cfg n s inv room =
    let Emptied = λ (t : State _). WellFormed cfg t × (t.pending_rentals n ≡ []) in
    let halts =
      Halts-continue (Spare cfg s.block_number 0) (λ t. Unit)
        (process_rentals cfg (s.pending_rentals n) s) _
        (process_rentals-Spare cfg s.block_number (s.pending_rentals n) s
          (record { at = refl; spare = room }))
        λ u t later. tt in
    let (t, done, both) =
      Halts-Runs Emptied (λ t. Unit) (on_initialize cfg n s) halts
        (on_initialize-WellFormed cfg n s inv) in
    (t, done, both.0, both.1)
