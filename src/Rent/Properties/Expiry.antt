-- ===== src/Rent/Properties/Expiry.antt =====
-- The rentals that `do_process_rental_periods` of pallets/rent/src/lib.rs ends, over its whole loop.
use pallet_rent.Prelude.{
  ℕ, ◌≤◌, ◌≡◌, inl, inr, refl, ◌∙◌, true, not, ◌||◌, some, List, [], ◌∷◌, arith, update_same,
  update_self,
}
use pallet_rent.Rent.Types.{Config, Collectible, RentalPeriodConfig, State}
use pallet_rent.Rent.Effects.{ok}
use pallet_rent.Rent.Rules.{Post, Post-map, Post-elim, Post-continue, Runs-elim}
use pallet_rent.Rent.Internal.{process_rental, process_rentals, do_process_rental_periods}
use pallet_rent.Rent.Calls.{on_initialize}
use pallet_rent.Rent.Invariant.Entries.{Entry, entries}
use pallet_rent.Rent.Invariant.Occurrences.{Occurs, entries-Occurs}
use pallet_rent.Rent.Invariant.CallLeases.{Leased}
use pallet_rent.Rent.Invariant.ProcessLeases.{Remaining, process_rental-Runs}
use pallet_rent.Rent.Properties.Ending.{
  Same, Same-trans, Ended, process_rental-Same, process_rental-Ended,
}

at_most_once :
    {L : Type 0} (n : ℕ) (rentals : List Entry) (s : State L) (j : ℕ)
    → Remaining n rentals s
    → entries j rentals ≤ 1
at_most_once n rentals s j inv = rw (update_self s.pending_rentals n rentals) at (inv.distinct n j)

Same-Ended :
    {L : Type 0} {id a : ℕ} {c : Collectible} {t v : State L}
    → Ended id a c t
    → Same id t v
    → Ended id a c v
Same-Ended {id} {a} p q = record {
  freed = q.stored ∙ p.freed;
  forgotten = q.configured a ∙ p.forgotten;
  unequipped = q.equipped a ∙ p.unequipped;
}

module _ {L : Type 0} (cfg : Config L) (n : ℕ) where
  after_round :
      (id a : ℕ) (rest : List Entry) (s t : State L)
      → Remaining n ((id, a) ∷ rest) s
      → process_rental cfg (id, a) s ≡ (ok tt, t)
      → Remaining n rest t
  after_round id a rest s t inv e =
      Runs-elim (Remaining n rest) (process_rental cfg (id, a) s) tt t
        (process_rental-Runs cfg n rest id a s inv) e

  pub process_rentals-Same :
      (rentals : List Entry) (j : ℕ) (s : State L)
      → Remaining n rentals s
      → entries j rentals ≡ 0
      → Post (Same j s) (process_rentals cfg rentals s)
  unfolding process_rentals
  process_rentals-Same [] j s inv none_of = record {
    stored = refl;
    configured = λ x. refl;
    equipped = λ x. refl;
  }
  process_rentals-Same ((id, a) ∷ rest) j s inv none_of =
      Post-continue (Same j s) (process_rental cfg (id, a) s) _ λ u t e.
        let first =
          Post-elim (Same j s) (process_rental cfg (id, a) s) u t
            (process_rental-Same cfg n rest id a j s inv (ground arith)) e in
        Post-map (Same j t) (Same j s) (process_rentals cfg rest t) (λ v h. Same-trans first h)
          (process_rentals-Same rest j t (after_round id a rest s t inv e) (ground arith))

  process_rentals-Ended :
      (rentals : List Entry) (id a : ℕ) (c : Collectible) (r : RentalPeriodConfig) (s : State L)
      → Remaining n rentals s
      → Occurs id a rentals
      → s.collectibles id ≡ some c
      → s.lessee_collectibles a id ≡ some r
      → (not c.rentable || not r.recurring) ≡ true
      → Post (Ended id a c) (process_rentals cfg rentals s)
  unfolding process_rentals
  process_rentals-Ended [] id a c r s inv o known rented over = absurd o
  process_rentals-Ended ((j, b) ∷ rest) id a c r s inv (inl (ej, eb)) known rented over =
      let once = at_most_once n ((j, b) ∷ rest) s id inv in
      Post-continue (Ended id a c) (process_rental cfg (j, b) s) _ λ u t e.
        let ended =
          Post-elim (Ended j b c) (process_rental cfg (j, b) s) u t
            (process_rental-Ended cfg n rest j b c r s inv (rw ej known) (rw (ej, eb) rented) over)
            e in
        Post-map (Same id t) (Ended id a c) (process_rentals cfg rest t)
          (λ v h. Same-Ended (rw (ej, eb) at ended) h)
          (process_rentals-Same rest id t (after_round j b rest s t inv e) (ground arith))
  process_rentals-Ended ((j, b) ∷ rest) id a c r s inv (inr o) known rented over =
      let once = at_most_once n ((j, b) ∷ rest) s id inv in
      let there = entries-Occurs id a rest o in
      Post-continue (Ended id a c) (process_rental cfg (j, b) s) _ λ u t e.
        let same =
          Post-elim (Same id s) (process_rental cfg (j, b) s) u t
            (process_rental-Same cfg n rest j b id s inv (ground arith)) e in
        process_rentals-Ended rest id a c r t (after_round j b rest s t inv e) o
          (same.stored ∙ known) (same.configured a ∙ rented) over

  -- On storage in which the rentals agree, a rental that is pending in the block `n` and is not
  -- recurring, or whose collectible is not rentable any more, is over when the hook of the block `n`
  -- has run to its end: the collectible has no lessee and is otherwise unchanged, the lessee has no
  -- configuration for it, and does not have it equipped.
  pub on_initialize-Ended :
      (id a : ℕ) (c : Collectible) (r : RentalPeriodConfig) (s : State L)
      → Leased s
      → Occurs id a (s.pending_rentals n)
      → s.collectibles id ≡ some c
      → s.lessee_collectibles a id ≡ some r
      → (not c.rentable || not r.recurring) ≡ true
      → Post (Ended id a c) (on_initialize cfg n s)
  unfolding on_initialize do_process_rental_periods
  on_initialize-Ended id a c r s inv o known rented over =
      Post-continue (Ended id a c) (process_rentals cfg (s.pending_rentals n) s) _ λ u t e.
        let ended =
          Post-elim (Ended id a c) (process_rentals cfg (s.pending_rentals n) s) u t
            (process_rentals-Ended (s.pending_rentals n) id a c r s
              (rw (update_same s.pending_rentals n) inv) o known rented over)
            e in
        record { freed = ended.freed; forgotten = ended.forgotten; unequipped = ended.unequipped }
