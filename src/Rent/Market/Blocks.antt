-- ===== src/Rent/Market/Blocks.antt =====
-- The hook of pallets/rent/src/lib.rs is a sequence of turns of its block on the market.
use pallet_rent.Prelude.{
  ℕ, ◌≡◌, inl, inr, refl, ap, ◌∙◌, true, not, ◌||◌, none, some, [], List, ◌∷◌, ◌++◌, arith, is_none,
  update, update₂, update_same, update_self, Bool-cases,
}
use pallet_rent.Rent.Types.{Config, State, Event, rent_payed, rental_ended, error_transfering_rent}
use pallet_rent.Rent.Rules.{Post, Post-continue, Post-elim, Post-map, Post-unwrap, Runs-elim}
use pallet_rent.Rent.Helpers.{
  rounds, add_blocks, mul_balance, append_pending_rental_to_available_block,
}
use pallet_rent.Rent.Helpers.Results.{find_block-cases, transfer_funds-cases, remove_lessee-ok}
use pallet_rent.Rent.Internal.{
  end_rental, append_rental, renew_rental, charge_rental, process_rental, process_rentals,
  do_process_rental_periods,
}
use pallet_rent.Rent.Calls.{on_initialize}
use pallet_rent.Rent.Invariant.CallLeases.{Leased}
use pallet_rent.Rent.Invariant.Leases.{block_of}
use pallet_rent.Rent.Invariant.Entries.{Entry}
use pallet_rent.Rent.Invariant.ProcessLeases.{Remaining, front, process_rental-Runs}
use pallet_rent.Rent.Market.{Market, ended, renewed, Turns, done, turn}
use pallet_rent.Rent.Market.View.{
  view, deal, deal_of, view-known, tenancy, deal_of-rental, deals-put_rental, deals-rental,
}

Turns-trans : {n : ℕ} {m u v : Market} → Turns n m u → Turns n u v → Turns n m v
Turns-trans done ts = ts
Turns-trans (turn t us) ts = turn t (Turns-trans us ts)

-- The first entry to be processed is of a rental that is due in the block.
front_due :
    {L : Type 0} (n id a : ℕ) (rest : List Entry) (s : State L)
    → Remaining n ((id, a) ∷ rest) s
    → block_of (s.lessee_collectibles a id) ≡ some n
front_due n id a rest s inv =
    (rw (update_self s.pending_rentals n ((id, a) ∷ rest)) at (inv.pending n)).0

module _ {L : Type 0} (cfg : Config L) (n : ℕ) (rest : List Entry) (id a : ℕ) (s : State L)
    (inv : Remaining n ((id, a) ∷ rest) s) where
  -- What the round did is a sequence of turns of the block.
  abbrev Turned : State L → Type 0
  Turned t = Turns n (view s) (view t)

  end_rental-Turned :
      (report : ℕ → ℕ → ℕ → Event)
      → Post Turned (end_rental cfg report a id (front n id a rest inv).collectible s)
  end_rental-Turned report =
      let f = front n id a rest inv in
      let c = f.collectible in
      let (evs, removed) = remove_lessee-ok a c s in
      rw (removed, f.keyed)
        (turn
          (ended id (deal_of id c s.lessee_collectibles) (tenancy a f.rental)
            (view-known s id c f.known) (rw (f.held, f.rented) refl)
            (ground (arith, front_due n id a rest s inv, f.rented))
            (deals-put_rental s.collectibles s.lessee_collectibles a id
              (some (record c { collectible_id = id; lessee = none })) none))
          done)

  append_rental-Turned :
      (l : L) (evs : List Event)
      → (front n id a rest inv).rental.recurring ≡ true
      → (front n id a rest inv).collectible.rentable ≡ true
      → Post Turned (
          append_rental cfg a id
            (front n id a rest inv).rental
            (record s { balances = l; events = evs }))
  unfolding append_rental append_pending_rental_to_available_block
  append_rental-Turned l evs again still =
      let f = front n id a rest inv in
      let c = f.collectible in
      let first = add_blocks cfg s.block_number f.rental.rental_periodic_interval in
      elim (find_block-cases cfg rounds s.block_number s.pending_rentals first) [
        | inl (b, found) ↦
            let q = record f.rental { next_rent_block = b } in
            rw found (
              turn
                (renewed id b (deal_of id c s.lessee_collectibles) (tenancy a f.rental)
                  (view-known s id c f.known) (rw (f.held, f.rented) refl)
                  (ground (arith, front_due n id a rest s inv, f.rented)) again still
                  (deals-rental s.collectibles s.lessee_collectibles a id (some q)
                    ∙ ap (update (view s) id) (
                        ap (λ o. deal id o (update₂ s.lessee_collectibles a id (some q))) f.known
                        ∙ ap some (deal_of-rental id c s.lessee_collectibles a q f.held))))
                done)
        | inr lost ↦ rw lost tt
      ]

  charge_rental-Turned :
      (front n id a rest inv).rental.recurring ≡ true
      → (front n id a rest inv).collectible.rentable ≡ true
      → Post Turned (
          charge_rental cfg a id
            (front n id a rest inv).collectible
            (front n id a rest inv).rental
            s)
  unfolding charge_rental renew_rental
  charge_rental-Turned again still =
      let f = front n id a rest inv in
      let c = f.collectible in
      Post-unwrap Turned c.price_per_block _ s λ price p.
        let total = mul_balance cfg price f.rental.rental_periodic_interval in
        elim (transfer_funds-cases cfg a c.lessor total s) [
          | inl (l, paid) ↦
              rw (paid, again)
                (append_rental-Turned l (s.events ++ rent_payed c.lessor a id total ∷ []) again
                  still)
          | inr (x, unpaid) ↦ rw unpaid (end_rental-Turned error_transfering_rent)
        ]

  process_rental-Turned : Post Turned (process_rental cfg (id, a) s)
  unfolding process_rental
  process_rental-Turned =
      let f = front n id a rest inv in
      let c = f.collectible in
      let test = not c.rentable || is_none c.lessee || not f.rental.recurring in
      rw (f.rented, f.known)
        (elim (Bool-cases test) [
          | inl over ↦ rw over (end_rental-Turned rental_ended)
          | inr goes_on ↦ rw goes_on (charge_rental-Turned (ground arith) (ground arith))
        ])

module _ {L : Type 0} (cfg : Config L) (n : ℕ) where
  process_rentals-Turns :
      (rentals : List Entry) (s : State L)
      → Remaining n rentals s
      → Post (λ t. Turns n (view s) (view t)) (process_rentals cfg rentals s)
  unfolding process_rentals
  process_rentals-Turns [] s inv = done
  process_rentals-Turns ((id, a) ∷ rest) s inv =
      Post-continue _ (process_rental cfg (id, a) s) _ λ u t e.
        let first =
          Post-elim (λ v. Turns n (view s) (view v)) (process_rental cfg (id, a) s) u t
            (process_rental-Turned cfg n rest id a s inv) e in
        let later =
          Runs-elim (Remaining n rest) (process_rental cfg (id, a) s) tt t
            (process_rental-Runs cfg n rest id a s inv) e in
        Post-map (λ v. Turns n (view t) (view v)) (λ v. Turns n (view s) (view v))
          (process_rentals cfg rest t) (λ v h. Turns-trans first h)
          (process_rentals-Turns rest t later)

  -- On storage in which the rentals agree, what a hook of the block `n` does that runs to its end is
  -- a sequence of turns of that block on the market: rentals that are due in it are ended, or, if
  -- they are recurring and the collectible is still on offer, renewed to another block.
  pub on_initialize-Turns :
      (s : State L) → Leased s → Post (λ t. Turns n (view s) (view t)) (on_initialize cfg n s)
  unfolding on_initialize do_process_rental_periods
  on_initialize-Turns s inv =
      Post-continue _ (process_rentals cfg (s.pending_rentals n) s) _ λ u t e.
        Post-elim (λ v. Turns n (view s) (view v)) (process_rentals cfg (s.pending_rentals n) s) u t
          (process_rentals-Turns (s.pending_rentals n) s (rw (update_same s.pending_rentals n) inv))
          e
