-- ===== src/Rent/Properties/Ending.antt =====
-- The end of a rental in `do_process_rental_periods` of pallets/rent/src/lib.rs: what happens to the
-- collectible of an entry, and to the collectibles of other entries.
use pallet_rent.Prelude.{
  ℕ, ◌≡◌, ◌≢◌, inl, inr, refl, sym, ◌∙◌, true, not, ◌||◌, none, some, List, [], ◌∷◌, ◌++◌, arith,
  is_none, get_or, count, count-without_self, count-without_ne,
}
use pallet_rent.Rent.Types.{
  Config, Collectible, RentalPeriodConfig, Event, rent_payed, rental_ended, error_transfering_rent,
  State,
}
use pallet_rent.Rent.Rules.{Post, Post-map, Post-when, Post-if, Post-unwrap}
use pallet_rent.Rent.Helpers.{
  rounds, add_blocks, mul_balance, append_pending_rental_to_available_block,
}
use pallet_rent.Rent.Helpers.Results.{find_block-cases, transfer_funds-cases, remove_lessee-ok}
use pallet_rent.Rent.Internal.{
  end_rental, append_rental, renew_rental, charge_rental, process_rental,
}
use pallet_rent.Rent.Invariant.Entries.{Entry}
use pallet_rent.Rent.Invariant.ProcessLeases.{Remaining, Front, front}

-- Nothing changed for the collectible `j`: itself, its configurations and who has it equipped.
pub record Same {L : Type 0} (j : ℕ) (s t : State L) : Type 0 where
  pub stored : t.collectibles j ≡ s.collectibles j
  pub configured : (x : ℕ) → t.lessee_collectibles x j ≡ s.lessee_collectibles x j
  pub equipped :
      (x : ℕ) → count j (get_or (t.account_equips x) []) ≡ count j (get_or (s.account_equips x) [])

pub Same-trans : {L : Type 0} {j : ℕ} {s t u : State L} → Same j s t → Same j t u → Same j s u
Same-trans p q = record {
  stored = q.stored ∙ p.stored;
  configured = λ x. q.configured x ∙ p.configured x;
  equipped = λ x. q.equipped x ∙ p.equipped x;
}

-- The rental of the collectible `c` by `a` is over: the collectible has no lessee and is otherwise
-- unchanged, the configuration is gone, and `a` does not have the collectible equipped.
pub record Ended {L : Type 0} (id a : ℕ) (c : Collectible) (t : State L) : Type 0 where
  pub freed : t.collectibles id ≡ some (record c { lessee = none })
  pub forgotten : t.lessee_collectibles a id ≡ none
  pub unequipped : count id (get_or (t.account_equips a) []) ≡ 0

module _ {L : Type 0} (cfg : Config L) (n : ℕ) (rest : List Entry) (id a : ℕ) where
  end_rental-Same :
      (report : ℕ → ℕ → ℕ → Event) (j : ℕ) (s : State L)
      (f : Front s.collectibles s.lessee_collectibles s.pending_rentals n id a rest)
      → j ≢ id
      → Post (Same j s) (end_rental cfg report a id f.collectible s)
  end_rental-Same report j s f other =
      let c = f.collectible in
      let (evs, removed) = remove_lessee-ok a c s in
      let ne : c.collectible_id ≢ j = λ e. other (sym e ∙ f.keyed) in
      rw removed (record {
        stored = ground arith;
        configured = λ x. ground arith;
        equipped = λ x.
            ground (arith, count-without_ne c.collectible_id j (get_or (s.account_equips a) []) ne);
      })

  end_rental-Ended :
      (report : ℕ → ℕ → ℕ → Event) (s : State L)
      (f : Front s.collectibles s.lessee_collectibles s.pending_rentals n id a rest)
      → Post (Ended id a f.collectible) (end_rental cfg report a id f.collectible s)
  end_rental-Ended report s f =
      let c = f.collectible in
      let (evs, removed) = remove_lessee-ok a c s in
      rw removed (record {
        freed = ground (arith, f.keyed);
        forgotten = ground (arith, f.keyed);
        unequipped =
            ground (
              arith,
              f.keyed,
              count-without_self c.collectible_id (get_or (s.account_equips a) []),
            );
      })

  append_rental-Same :
      (j : ℕ) (r : RentalPeriodConfig) (s : State L)
      → j ≢ id
      → Post (Same j s) (append_rental cfg a id r s)
  unfolding append_rental append_pending_rental_to_available_block
  append_rental-Same j r s other =
      let first = add_blocks cfg s.block_number r.rental_periodic_interval in
      elim (find_block-cases cfg rounds s.block_number s.pending_rentals first) [
        | inl (b, found) ↦
            rw found
              (record { stored = refl; configured = λ x. ground arith; equipped = λ x. refl })
        | inr lost ↦ rw lost tt
      ]

  renew_rental-Same :
      (j total : ℕ) (c : Collectible) (r : RentalPeriodConfig) (s : State L)
      → j ≢ id
      → Post (Same j s) (renew_rental cfg a id c r total s)
  unfolding renew_rental
  renew_rental-Same j total c r s other =
      let t = record s { events = s.events ++ rent_payed c.lessor a id total ∷ [] } in
      Post-when (Same j s) r.recurring (append_rental cfg a id r) t
        (Post-map (Same j t) (Same j s) (append_rental cfg a id r t) (λ v h. Same-trans same h)
          (append_rental-Same j r t other))
        same
    where
      same : {evs : List Event} → Same j s (record s { events = evs })
      same = record { stored = refl; configured = λ x. refl; equipped = λ x. refl }

  charge_rental-Same :
      (j : ℕ) (s : State L)
      (f : Front s.collectibles s.lessee_collectibles s.pending_rentals n id a rest)
      → j ≢ id
      → Post (Same j s) (charge_rental cfg a id f.collectible f.rental s)
  unfolding charge_rental
  charge_rental-Same j s f other =
      let c = f.collectible in
      Post-unwrap (Same j s) c.price_per_block _ s λ price p.
        let total = mul_balance cfg price f.rental.rental_periodic_interval in
        elim (transfer_funds-cases cfg a c.lessor total s) [
          | inl (l, paid) ↦ rw paid (
              Post-map (Same j (record s { balances = l })) (Same j s)
                (renew_rental cfg a id c f.rental total (record s { balances = l }))
                (λ v h. record {
                  stored = h.stored;
                  configured = h.configured;
                  equipped = h.equipped;
                })
                (renew_rental-Same j total c f.rental (record s { balances = l }) other))
          | inr (x, unpaid) ↦ rw unpaid (end_rental-Same error_transfering_rent j s f other)
        ]

  -- One round of the loop leaves other collectibles alone.
  pub process_rental-Same :
      (j : ℕ) (s : State L)
      → Remaining n ((id, a) ∷ rest) s
      → j ≢ id
      → Post (Same j s) (process_rental cfg (id, a) s)
  unfolding process_rental
  process_rental-Same j s inv other =
      let f = front n id a rest inv in
      let c = f.collectible in
      let ends = end_rental-Same rental_ended j s f other in
      let goes_on = charge_rental-Same j s f other in
      rw (f.rented, f.known)
        (Post-if (Same j s) (not c.rentable || is_none c.lessee || not f.rental.recurring)
          (end_rental cfg rental_ended a id c) (charge_rental cfg a id c f.rental) s ends goes_on)

  -- One round of the loop ends the rental of its entry, if the collectible is not rentable any more
  -- or the rental is not recurring.
  pub process_rental-Ended :
      (c : Collectible) (r : RentalPeriodConfig) (s : State L)
      → Remaining n ((id, a) ∷ rest) s
      → s.collectibles id ≡ some c
      → s.lessee_collectibles a id ≡ some r
      → (not c.rentable || not r.recurring) ≡ true
      → Post (Ended id a c) (process_rental cfg (id, a) s)
  unfolding process_rental
  process_rental-Ended c r s inv known rented over =
      let f = front n id a rest inv in
      let same : f.collectible ≡ c = ground (arith, f.known) in
      let test : (not c.rentable || is_none c.lessee || not r.recurring) ≡ true = ground arith in
      rw (rented, known, test) (rw same at (end_rental-Ended rental_ended s f))
