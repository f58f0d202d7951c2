-- ===== src/Rent/Schedule/Blocks.antt =====
-- The hook of pallets/rent/src/lib.rs keeps the schedule: what is due in its block is processed, and what
-- goes on is due in a later block.
use mathlib.Core.Path.{subst}
use native.Mathlib.Nat.{mod-eq_of_lt}
use pallet_rent.Prelude.{
  ℕ, ◌+◌, ◌^◌, ◌≤◌, ◌<◌, ◌≡◌, inl, inr, sym, true, not, ◌||◌, [], List, ◌∷◌, ◌++◌, arith, is_none,
  ◌==◌, update, update_same, Bool-cases,
}
use pallet_rent.Rent.Types.{Config, State, Event, rent_payed, rental_ended, error_transfering_rent}
use pallet_rent.Rent.Effects.{ok}
use pallet_rent.Rent.Rules.{Post, Post-continue, Post-elim, Post-unwrap, Runs-elim}
use pallet_rent.Rent.Helpers.{
  rounds, find_block, add_blocks, mul_balance, append_pending_rental_to_available_block,
}
use pallet_rent.Rent.Helpers.Results.{find_block-cases, transfer_funds-cases, remove_lessee-ok}
use pallet_rent.Rent.Helpers.Search.{find_block-where}
use pallet_rent.Rent.Internal.{
  end_rental, append_rental, renew_rental, charge_rental, process_rental, process_rentals,
  do_process_rental_periods,
}
use pallet_rent.Rent.Calls.{on_initialize}
use pallet_rent.Rent.Invariant.CallLeases.{Leased}
use pallet_rent.Rent.Invariant.Entries.{Entry}
use pallet_rent.Rent.Invariant.ProcessLeases.{Remaining, front, process_rental-Runs}
use pallet_rent.Rent.Schedule.{Due, Scheduled}
use pallet_rent.Rent.Schedule.Changes.{drop-Due, renew-Due}

-- A block that is found for a rental of 1 to `longest` blocks is after the current one.
pub find_block-later :
    {L : Type 0} (cfg : Config L) (now blocks longest b : ℕ) (pending : ℕ → List Entry)
    → 0 < blocks
    → blocks ≤ longest
    → now + longest < 2 ^ cfg.block_bits
    → find_block cfg rounds now pending (add_blocks cfg now blocks) ≡ ok b
    → now < b
find_block-later cfg now blocks longest b pending some_blocks short small found =
    let whole : add_blocks cfg now blocks ≡ now + blocks =
      mod-eq_of_lt (omega (arith, short, small)) in
    let one : add_blocks cfg now 1 ≡ now + 1 =
      mod-eq_of_lt (omega (arith, short, small, some_blocks)) in
    ground (arith, whole, one, find_block-where cfg now pending (add_blocks cfg now blocks) b found)

-- In the loop for the block `n`: the rentals are due in it or later, where `rest` stands in for its
-- entries.
abbrev pub Processing : {L : Type 0} → ℕ → ℕ → List Entry → State L → Type 0
Processing longest n rest s =
    Due n longest s.lessee_collectibles (update s.pending_rentals n rest) × (s.block_number ≡ n)

module _ {L : Type 0} (cfg : Config L) (longest n : ℕ) (rest : List Entry) (id a : ℕ) (s : State L)
    (inv : Remaining n ((id, a) ∷ rest) s) (due : Processing longest n ((id, a) ∷ rest) s) where
  abbrev Goes : State L → Type 0
  Goes = Processing longest n rest

  end_rental-Goes :
      (report : ℕ → ℕ → ℕ → Event)
      → Post Goes (end_rental cfg report a id (front n id a rest inv).collectible s)
  end_rental-Goes report =
      let f = front n id a rest inv in
      let (evs, removed) = remove_lessee-ok a f.collectible s in
      rw (removed, f.keyed)
        (drop-Due n longest s.lessee_collectibles id a s.pending_rentals n rest due.0, due.1)

  append_rental-Goes :
      (l : L) (evs : List Event)
      → n + longest < 2 ^ cfg.block_bits
      → Post Goes (
          append_rental cfg a id
            (front n id a rest inv).rental
            (record s { balances = l; events = evs }))
  unfolding append_rental append_pending_rental_to_available_block
  append_rental-Goes l evs small =
      let f = front n id a rest inv in
      let r = f.rental in
      let first = add_blocks cfg s.block_number r.rental_periodic_interval in
      let (at_least, some_blocks, short, there) = due.0 a id r f.rented in
      elim (find_block-cases cfg rounds s.block_number s.pending_rentals first) [
        | inl (b, found) ↦
            let after : s.block_number < b =
              find_block-later cfg s.block_number r.rental_periodic_interval longest b
                s.pending_rentals some_blocks short (rw due.1 small) found in
            rw found (
              renew-Due n longest s.lessee_collectibles id a s.pending_rentals n rest
                  (record r { next_rent_block = b }) due.0 (omega (arith, after, due.1))
                  (omega (arith, after, due.1)) some_blocks short,
              due.1,
            )
        | inr lost ↦ rw lost tt
      ]

  charge_rental-Goes :
      (front n id a rest inv).rental.recurring ≡ true
      → n + longest < 2 ^ cfg.block_bits
      → Post Goes (
          charge_rental cfg a id
            (front n id a rest inv).collectible
            (front n id a rest inv).rental
            s)
  unfolding charge_rental renew_rental
  charge_rental-Goes again small =
      let f = front n id a rest inv in
      let c = f.collectible in
      Post-unwrap Goes c.price_per_block _ s λ price p.
        let total = mul_balance cfg price f.rental.rental_periodic_interval in
        elim (transfer_funds-cases cfg a c.lessor total s) [
          | inl (l, paid) ↦
              rw (paid, again)
                (append_rental-Goes l (s.events ++ rent_payed c.lessor a id total ∷ []) small)
          | inr (x, unpaid) ↦ rw unpaid (end_rental-Goes error_transfering_rent)
        ]

  process_rental-Goes : n + longest < 2 ^ cfg.block_bits → Post Goes (process_rental cfg (id, a) s)
  unfolding process_rental
  process_rental-Goes small =
      let f = front n id a rest inv in
      let c = f.collectible in
      let test = not c.rentable || is_none c.lessee || not f.rental.recurring in
      rw (f.rented, f.known)
        (elim (Bool-cases test) [
          | inl over ↦ rw over (end_rental-Goes rental_ended)
          | inr goes_on ↦ rw goes_on (charge_rental-Goes (ground arith) small)
        ])

module _ {L : Type 0} (cfg : Config L) (longest n : ℕ)
    (small : n + longest < 2 ^ cfg.block_bits) where
  process_rentals-Goes :
      (rentals : List Entry) (s : State L)
      → Remaining n rentals s
      → Processing longest n rentals s
      → Post (Processing longest n []) (process_rentals cfg rentals s)
  unfolding process_rentals
  process_rentals-Goes [] s inv due = due
  process_rentals-Goes ((id, a) ∷ rest) s inv due =
      Post-continue _ (process_rental cfg (id, a) s) _ λ u t e.
        process_rentals-Goes rest t
          (Runs-elim (Remaining n rest) (process_rental cfg (id, a) s) tt t
            (process_rental-Runs cfg n rest id a s inv) e)
          (Post-elim (Processing longest n rest) (process_rental cfg (id, a) s) u t
            (process_rental-Goes cfg longest n rest id a s inv due small) e)

  -- With no entry left in the block, nothing is due in it.
  done-Scheduled :
      (t : State L)
      → Due n longest t.lessee_collectibles (update t.pending_rentals n [])
      → t.block_number ≡ n
      → Scheduled longest (record t { pending_rentals = update t.pending_rentals n [] })
  done-Scheduled t later here x j r known =
      let (low, some_blocks, short, there) = later x j r known in
      elim (Bool-cases (n == r.next_rent_block)) [
        | inl due_now ↦ absurd (rw due_now at there)
        | inr other ↦ (ground (arith, low, here, other), some_blocks, short, there)
      ]

  -- What is due in the block `n` or later, is due after it when the hook of the block has run.
  pub on_initialize-Scheduled :
      (s : State L)
      → Leased s
      → s.block_number ≡ n
      → Due n longest s.lessee_collectibles s.pending_rentals
      → Post (Scheduled longest) (on_initialize cfg n s)
  unfolding on_initialize do_process_rental_periods
  on_initialize-Scheduled s inv at due =
      let same = update_same s.pending_rentals n in
      Post-continue _ (process_rentals cfg (s.pending_rentals n) s) _ λ u t e.
        let (later, here) =
          Post-elim (Processing longest n []) (process_rentals cfg (s.pending_rentals n) s) u t
            (process_rentals-Goes (s.pending_rentals n) s (rw same inv)
              (subst (Due n longest s.lessee_collectibles) (sym same) due, at))
            e in
        done-Scheduled t later here
