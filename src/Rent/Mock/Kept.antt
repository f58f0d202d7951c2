-- ===== src/Rent/Mock/Kept.antt =====
-- What the hook of pallets/rent/src/lib.rs keeps for later blocks: the block number, and the entries
-- that are pending in other blocks.
use pallet_rent.Prelude.{
  ℕ, ◌≡◌, ◌≢◌, inl, inr, refl, ◌∙◌, false, not, ◌||◌, [], List, ◌∷◌, ◌++◌, arith, is_none, ◌==◌,
  Bool-cases, ==_eq,
}
use pallet_rent.Rent.Types.{
  Config, Collectible, RentalPeriodConfig, State, Event, rent_payed, rental_ended,
  error_transfering_rent,
}
use pallet_rent.Rent.Rules.{
  Post, Post-continue, Post-elim, Post-map, Post-unwrap, Post-when, Post-if,
}
use pallet_rent.Rent.Helpers.{
  rounds, add_blocks, mul_balance, append_pending_rental_to_available_block,
}
use pallet_rent.Rent.Helpers.Results.{find_block-cases, transfer_funds-cases, remove_lessee-ok}
use pallet_rent.Rent.Internal.{
  end_rental, append_rental, renew_rental, charge_rental, process_rental, process_rentals,
  do_process_rental_periods,
}
use pallet_rent.Rent.Calls.{on_initialize}
use pallet_rent.Rent.Invariant.Entries.{Entry}
use pallet_rent.Rent.Invariant.Occurrences.{Occurs, Occurs-append}

module _ {L : Type 0} (cfg : Config L) where
  -- The block number stays, and what is pending in the block `d` stays pending.
  pub record Waits (d : ℕ) (s t : State L) : Type 0 where
    pub at : t.block_number ≡ s.block_number
    pub waits : (id a : ℕ) → Occurs id a (s.pending_rentals d) → Occurs id a (t.pending_rentals d)

  Waits-refl :
      (d : ℕ) (s t : State L)
      → t.block_number ≡ s.block_number
      → t.pending_rentals ≡ s.pending_rentals
      → Waits d s t
  Waits-refl d s t at same = record { at = at; waits = λ id a o. rw same o }

  Waits-trans : {d : ℕ} {s t u : State L} → Waits d s t → Waits d t u → Waits d s u
  Waits-trans p q = record { at = q.at ∙ p.at; waits = λ id a o. q.waits id a (p.waits id a o) }

  end_rental-Waits :
      (d : ℕ) (report : ℕ → ℕ → ℕ → Event) (a id : ℕ) (c : Collectible) (s : State L)
      → Post (Waits d s) (end_rental cfg report a id c s)
  end_rental-Waits d report a id c s =
      let (evs, removed) = remove_lessee-ok a c s in rw removed (Waits-refl d s _ refl refl)

  append_rental-Waits :
      (d : ℕ) (a id : ℕ) (r : RentalPeriodConfig) (s : State L)
      → Post (Waits d s) (append_rental cfg a id r s)
  unfolding append_rental append_pending_rental_to_available_block
  append_rental-Waits d a id r s =
      elim (find_block-cases cfg rounds s.block_number s.pending_rentals
        (add_blocks cfg s.block_number r.rental_periodic_interval)) [
          | inl (b, found) ↦ rw found (record {
            at = refl;
            waits = λ j x o. elim (Bool-cases (b == d)) [
              | inl hit ↦
                  rw hit (Occurs-append j x (s.pending_rentals b) (id, a) (rw (==_eq b d hit) o))
              | inr miss ↦ rw miss o
            ];
          })
          | inr lost ↦ rw lost tt
        ]

  charge_rental-Waits :
      (d : ℕ) (a id : ℕ) (c : Collectible) (r : RentalPeriodConfig) (s : State L)
      → Post (Waits d s) (charge_rental cfg a id c r s)
  unfolding charge_rental renew_rental
  charge_rental-Waits d a id c r s = Post-unwrap (Waits d s) c.price_per_block _ s λ price has.
      let total = mul_balance cfg price r.rental_periodic_interval in
      elim (transfer_funds-cases cfg a c.lessor total s) [
        | inl (l, paid) ↦
            let t = record s {
              balances = l;
              events = s.events ++ rent_payed c.lessor a id total ∷ [];
            } in
            let same : Waits d s t = Waits-refl d s t refl refl in
            rw paid (
              Post-when (Waits d s) r.recurring (append_rental cfg a id r) t
                (Post-map (Waits d t) (Waits d s) (append_rental cfg a id r t)
                  (λ v h. Waits-trans same h) (append_rental-Waits d a id r t))
                same)
        | inr (x, unpaid) ↦ rw unpaid (end_rental-Waits d error_transfering_rent a id c s)
      ]

  process_rental-Waits :
      (d : ℕ) (e : Entry) (s : State L) → Post (Waits d s) (process_rental cfg e s)
  unfolding process_rental
  process_rental-Waits d (id, a) s =
      Post-unwrap (Waits d s) (s.lessee_collectibles a id) _ s λ r rented.
        Post-unwrap (Waits d s) (s.collectibles id) _ s λ c known.
          Post-if (Waits d s) (not c.rentable || is_none c.lessee || not r.recurring)
            (end_rental cfg rental_ended a id c) (charge_rental cfg a id c r) s
            (end_rental-Waits d rental_ended a id c s) (charge_rental-Waits d a id c r s)

  process_rentals-Waits :
      (d : ℕ) (rentals : List Entry) (s : State L)
      → Post (Waits d s) (process_rentals cfg rentals s)
  unfolding process_rentals
  process_rentals-Waits d [] s = Waits-refl d s s refl refl
  process_rentals-Waits d (e ∷ rest) s =
      Post-continue (Waits d s) (process_rental cfg e s) _ λ u t ran.
        let first =
          Post-elim (Waits d s) (process_rental cfg e s) u t (process_rental-Waits d e s) ran in
        Post-map (Waits d t) (Waits d s) (process_rentals cfg rest t) (λ v h. Waits-trans first h)
          (process_rentals-Waits d rest t)

  -- The hook of a block keeps the block number and the entries of the other blocks.
  pub on_initialize-Waits :
      (n d : ℕ) (s : State L) → n ≢ d → Post (Waits d s) (on_initialize cfg n s)
  unfolding on_initialize do_process_rental_periods
  on_initialize-Waits n d s other =
      Post-continue (Waits d s) (process_rentals cfg (s.pending_rentals n) s) _ λ u t ran.
        let kept =
          Post-elim (Waits d s) (process_rentals cfg (s.pending_rentals n) s) u t
            (process_rentals-Waits d (s.pending_rentals n) s) ran in
        let miss : (n == d) ≡ false = ground arith in
        record { at = kept.at; waits = λ id a o. rw miss (kept.waits id a o) }
