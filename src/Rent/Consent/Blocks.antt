-- ===== src/Rent/Consent/Blocks.antt =====
-- The hook of pallets/rent/src/lib.rs takes nothing from an account without a recurring rental.
use pallet_rent.Prelude.{
  ℕ, ◌≤◌, ◌≡◌, ◌≢◌, ap, true, not, ◌||◌, Option, some, none, List, [], ◌∷◌, ◌++◌, arith, is_none,
  inl, inr, Bool-cases, update₂,
}
use pallet_rent.Rent.Types.{
  Config, Collectible, RentalPeriodConfig, State, Event, rent_payed, rental_ended,
  error_transfering_rent,
}
use pallet_rent.Rent.Effects.{ok}
use pallet_rent.Rent.Rules.{Post, Post-continue, Post-elim, Post-map, Post-unwrap, Post-when}
use pallet_rent.Rent.Helpers.{
  rounds, add_blocks, mul_balance, transfer_funds, append_pending_rental_to_available_block,
}
use pallet_rent.Rent.Helpers.Results.{
  find_block-cases, transfer_funds-cases, transfer_funds-ok, remove_lessee-ok,
}
use pallet_rent.Rent.Internal.{
  end_rental, append_rental, renew_rental, charge_rental, process_rental, process_rentals,
  do_process_rental_periods,
}
use pallet_rent.Rent.Calls.{on_initialize}
use pallet_rent.Rent.Invariant.Entries.{Entry}
use pallet_rent.Rent.Properties.Payment.{CurrencyLaws}
use pallet_rent.Rent.Consent.{Once, Spares, transfer-spares}
use pallet_rent.Rent.Consent.Calls.{other-Once}

-- A rental is removed.
end-Once :
    (x a id : ℕ) (rentals : ℕ → ℕ → Option RentalPeriodConfig)
    → Once x rentals
    → Once x (update₂ rentals a id none)
end-Once x a id rentals once j r e = once j r (ground (arith, e))

module _ {L : Type 0} (cfg : Config L) (laws : CurrencyLaws cfg) (x : ℕ) where
  transfer_funds-spares :
      (from to amount : ℕ) (s : State L) (l : L)
      → from ≢ x
      → transfer_funds cfg from to amount s ≡ (ok tt, record s { balances = l })
      → cfg.free_balance s.balances x ≤ cfg.free_balance l x
  transfer_funds-spares from to amount s l other e =
      let (k, paid, covered, left) =
        transfer_funds-ok cfg from to amount s (record s { balances = l }) e in
      rw (ap (λ (t : State L). t.balances) left)
        (transfer-spares cfg laws s.balances k from to amount x other paid)

  module _ (s : State L) (once : Once x s.lessee_collectibles) (id y : ℕ) where
    end_rental-Spares :
        (report : ℕ → ℕ → ℕ → Event) (c : Collectible)
        → Post (Spares cfg x s) (end_rental cfg report y id c s)
    end_rental-Spares report c =
        let (evs, removed) = remove_lessee-ok y c s in
        rw removed (record {
          not_less = omega arith;
          once = end-Once x y c.collectible_id s.lessee_collectibles once;
        })

    append_rental-Spares :
        (r : RentalPeriodConfig) (l : L) (evs : List Event)
        → y ≢ x
        → cfg.free_balance s.balances x ≤ cfg.free_balance l x
        → Post (Spares cfg x s) (append_rental cfg y id r (record s { balances = l; events = evs }))
    unfolding append_rental append_pending_rental_to_available_block
    append_rental-Spares r l evs other more =
        let first = add_blocks cfg s.block_number r.rental_periodic_interval in
        elim (find_block-cases cfg rounds s.block_number s.pending_rentals first) [
          | inl (b, found) ↦ rw found (record {
            not_less = more;
            once =
                other-Once x y id s.lessee_collectibles (some (record r { next_rent_block = b }))
                  other once;
          })
          | inr lost ↦ rw lost tt
        ]

    charge_rental-Spares :
        (c : Collectible) (r : RentalPeriodConfig)
        → s.lessee_collectibles y id ≡ some r
        → r.recurring ≡ true
        → Post (Spares cfg x s) (charge_rental cfg y id c r s)
    unfolding charge_rental renew_rental
    charge_rental-Spares c r rented again =
        let other : y ≢ x = λ e. ground (arith, again, once id r (rw e at rented)) in
        Post-unwrap (Spares cfg x s) c.price_per_block _ s λ price p.
          let total = mul_balance cfg price r.rental_periodic_interval in
          elim (transfer_funds-cases cfg y c.lessor total s) [
            | inl (l, paid) ↦
                let more = transfer_funds-spares y c.lessor total s l other paid in
                let evs = s.events ++ rent_payed c.lessor y id total ∷ [] in
                rw paid (
                  Post-when (Spares cfg x s) r.recurring (append_rental cfg y id r)
                    (record s { balances = l; events = evs })
                    (append_rental-Spares r l evs other more)
                    (record { not_less = more; once = once }))
            | inr (e, unpaid) ↦ rw unpaid (end_rental-Spares error_transfering_rent c)
          ]

    process_rental-Spares : Post (Spares cfg x s) (process_rental cfg (id, y) s)
    unfolding process_rental
    process_rental-Spares =
        Post-unwrap (Spares cfg x s) (s.lessee_collectibles y id) _ s λ r rented.
          Post-unwrap (Spares cfg x s) (s.collectibles id) _ s λ c known.
            elim (Bool-cases (not c.rentable || is_none c.lessee || not r.recurring)) [
              | inl over ↦ rw over (end_rental-Spares rental_ended c)
              | inr goes_on ↦ rw goes_on (charge_rental-Spares c r rented (ground arith))
            ]

  -- What is spared in two runs is spared in one after the other.
  pub Spares-trans : (s t u : State L) → Spares cfg x s t → Spares cfg x t u → Spares cfg x s u
  Spares-trans s t u first later = record {
    not_less = omega (arith, first.not_less, later.not_less);
    once = later.once;
  }

  process_rentals-Spares :
      (rentals : List Entry) (s : State L)
      → Once x s.lessee_collectibles
      → Post (Spares cfg x s) (process_rentals cfg rentals s)
  unfolding process_rentals
  process_rentals-Spares [] s once = record { not_less = omega arith; once = once }
  process_rentals-Spares ((id, y) ∷ rest) s once =
      Post-continue _ (process_rental cfg (id, y) s) _ λ u t e.
        let first =
          Post-elim (Spares cfg x s) (process_rental cfg (id, y) s) u t
            (process_rental-Spares s once id y) e in
        Post-map (Spares cfg x t) (Spares cfg x s) (process_rentals cfg rest t)
          (λ v later. Spares-trans s t v first later) (process_rentals-Spares rest t first.once)

  -- The hook of any block.
  pub on_initialize-Spares :
      (n : ℕ) (s : State L)
      → Once x s.lessee_collectibles
      → Post (Spares cfg x s) (on_initialize cfg n s)
  unfolding on_initialize do_process_rental_periods
  on_initialize-Spares n s once =
      Post-continue _ (process_rentals cfg (s.pending_rentals n) s) _ λ u t e.
        let all =
          Post-elim (Spares cfg x s) (process_rentals cfg (s.pending_rentals n) s) u t
            (process_rentals-Spares (s.pending_rentals n) s once) e in
        record { not_less = all.not_less; once = all.once }
