-- ===== src/Rent/Invariant/ProcessKept.antt =====
-- `do_process_rental_periods` of pallets/rent/src/lib.rs on well-formed storage: it does not panic,
-- and the storage is well-formed after it.
use pallet_rent.Prelude.{
  ℕ, ◌≡◌, refl, not, ◌||◌, Option, none, some, List, [], ◌∷◌, ◌++◌, inl, inr, arith, is_none,
  update, update_same, update_self,
}
use pallet_rent.Rent.Types.{
  Config, Collectible, RentalPeriodConfig, Event, rent_payed, rental_ended, error_transfering_rent,
  State,
}
use pallet_rent.Rent.Rules.{Post, Post-when, Post-if, Post-unwrap, Runs, Runs-continue, Runs-and}
use pallet_rent.Rent.Helpers.{
  rounds, add_blocks, mul_balance, append_pending_rental_to_available_block,
}
use pallet_rent.Rent.Helpers.Results.{find_block-cases, transfer_funds-cases, remove_lessee-ok}
use pallet_rent.Rent.Internal.{
  end_rental, append_rental, renew_rental, charge_rental, process_rental, process_rentals,
  do_process_rental_periods,
}
use pallet_rent.Rent.Calls.{on_initialize}
use pallet_rent.Rent.Invariant.Entries.{Entry}
use pallet_rent.Rent.Invariant.CallLeases.{Leased}
use pallet_rent.Rent.Invariant.Holdings.{put-IsOwned, put-IsListed, lose-IsEntitled}
use pallet_rent.Rent.Invariant.CallHoldings.{Held}
use pallet_rent.Rent.Invariant.Bounds.{Bounded, append-AllShort, without-AllWithin}
use pallet_rent.Rent.Invariant.ProcessLeases.{Remaining, Front, front, process_rental-Runs}

-- What a call keeps besides the agreement of the rentals.
pub record Kept {L : Type 0} (cfg : Config L) (s : State L) : Type 0 where
  pub held : Held s
  pub bounded : Bounded cfg s

-- It does not speak of balances, events and the current block.
pub frame-Kept :
    {L : Type 0} (cfg : Config L) (s : State L) (l : L) (evs : List Event) (now : ℕ) (i : Option ℕ)
    → Kept cfg s
    → Kept cfg (record s { balances = l; events = evs; block_number = now; extrinsic_index = i })
frame-Kept cfg s l evs now i inv = record {
  held = record { owned = inv.held.owned; listed = inv.held.listed; entitled = inv.held.entitled };
  bounded = record {
    lessors = inv.bounded.lessors;
    equips = inv.bounded.equips;
    rentables = inv.bounded.rentables;
    pending = inv.bounded.pending;
  };
}

module _ {L : Type 0} (cfg : Config L) (n : ℕ) (rest : List Entry) where
  end_rental-Kept :
      (report : ℕ → ℕ → ℕ → Event) (id a : ℕ) (s : State L)
      (f : Front s.collectibles s.lessee_collectibles s.pending_rentals n id a rest)
      → Kept cfg s
      → Post (Kept cfg) (end_rental cfg report a id f.collectible s)
  end_rental-Kept report id a s f inv =
      let c = f.collectible in
      let d = record c { lessee = none } in
      let key = c.collectible_id in
      let known = rw (← f.keyed) at f.known in
      let (evs, removed) = remove_lessee-ok a c s in
      rw removed (record {
        held = record {
          owned = put-IsOwned inv.held.owned key c d known refl refl;
          listed = put-IsListed inv.held.listed key (some d) (λ h. rw known h);
          entitled =
              lose-IsEntitled inv.held.entitled a key (some d)
                (λ x ne h. ground (arith, known, f.held));
        };
        bounded = record {
          lessors = inv.bounded.lessors;
          equips =
              without-AllWithin cfg.maximum_owned s.account_equips a c.collectible_id
                inv.bounded.equips;
          rentables = inv.bounded.rentables;
          pending = inv.bounded.pending;
        };
      })

  append_rental-Kept :
      (id a : ℕ) (r : RentalPeriodConfig) (s : State L)
      → Kept cfg s
      → Post (Kept cfg) (append_rental cfg a id r s)
  unfolding append_rental append_pending_rental_to_available_block
  append_rental-Kept id a r s inv =
      let first = add_blocks cfg s.block_number r.rental_periodic_interval in
      elim (find_block-cases cfg rounds s.block_number s.pending_rentals first) [
        | inl (b, found) ↦ rw found (record {
          held = record {
            owned = inv.held.owned;
            listed = inv.held.listed;
            entitled = inv.held.entitled;
          };
          bounded = record {
            lessors = inv.bounded.lessors;
            equips = inv.bounded.equips;
            rentables = inv.bounded.rentables;
            pending =
                append-AllShort cfg s.pending_rentals s.block_number first b id a
                  inv.bounded.pending found;
          };
        })
        | inr lost ↦ rw lost tt
      ]

  renew_rental-Kept :
      (id a total : ℕ) (c : Collectible) (r : RentalPeriodConfig) (s : State L)
      → Kept cfg s
      → Post (Kept cfg) (renew_rental cfg a id c r total s)
  unfolding renew_rental
  renew_rental-Kept id a total c r s inv =
      let evs = s.events ++ rent_payed c.lessor a id total ∷ [] in
      let t = record s { events = evs } in
      let kept = frame-Kept cfg s s.balances evs s.block_number s.extrinsic_index inv in
      Post-when (Kept cfg) r.recurring (append_rental cfg a id r) t
        (append_rental-Kept id a r t kept) kept

  charge_rental-Kept :
      (id a : ℕ) (s : State L)
      (f : Front s.collectibles s.lessee_collectibles s.pending_rentals n id a rest)
      → Kept cfg s
      → Post (Kept cfg) (charge_rental cfg a id f.collectible f.rental s)
  unfolding charge_rental
  charge_rental-Kept id a s f inv =
      let c = f.collectible in
      Post-unwrap (Kept cfg) c.price_per_block _ s λ price p.
        let total = mul_balance cfg price f.rental.rental_periodic_interval in
        elim (transfer_funds-cases cfg a c.lessor total s) [
          | inl (l, paid) ↦ rw paid (
              renew_rental-Kept id a total c f.rental (record s { balances = l })
                (frame-Kept cfg s l s.events s.block_number s.extrinsic_index inv))
          | inr (x, unpaid) ↦ rw unpaid (end_rental-Kept error_transfering_rent id a s f inv)
        ]

  process_rental-Kept :
      (id a : ℕ) (s : State L)
      → Remaining n ((id, a) ∷ rest) s
      → Kept cfg s
      → Post (Kept cfg) (process_rental cfg (id, a) s)
  unfolding process_rental
  process_rental-Kept id a s inv kept =
      let f = front n id a rest inv in
      let c = f.collectible in
      let ends = end_rental-Kept rental_ended id a s f kept in
      let goes_on = charge_rental-Kept id a s f kept in
      rw (f.rented, f.known)
        (Post-if (Kept cfg) (not c.rentable || is_none c.lessee || not f.rental.recurring)
          (end_rental cfg rental_ended a id c) (charge_rental cfg a id c f.rental) s ends goes_on)

-- Emptying a block.
cleared-Kept :
    {L : Type 0} (cfg : Config L) (n : ℕ) (t : State L)
    → Kept cfg t
    → Kept cfg (record t { pending_rentals = update t.pending_rentals n [] })
cleared-Kept cfg n t inv = record {
  held = record { owned = inv.held.owned; listed = inv.held.listed; entitled = inv.held.entitled };
  bounded = record {
    lessors = inv.bounded.lessors;
    equips = inv.bounded.equips;
    rentables = inv.bounded.rentables;
    pending = λ b. ground (arith, inv.bounded.pending b);
  };
}

-- Well-formed storage.
pub record WellFormed {L : Type 0} (cfg : Config L) (s : State L) : Type 0 where
  pub leased : Leased s
  pub kept : Kept cfg s

module _ {L : Type 0} (cfg : Config L) (n : ℕ) where
  process_rentals-Kept :
      (rentals : List Entry) (s : State L)
      → Remaining n rentals s × Kept cfg s
      → Runs (λ t. Remaining n [] t × Kept cfg t) (process_rentals cfg rentals s)
  unfolding process_rentals
  process_rentals-Kept [] s inv = inv
  process_rentals-Kept ((id, a) ∷ rest) s inv =
      Runs-continue (λ t. Remaining n rest t × Kept cfg t) (λ t. Remaining n [] t × Kept cfg t)
        (process_rental cfg (id, a) s) _
        (Runs-and (Remaining n rest) (Kept cfg) (process_rental cfg (id, a) s)
          (process_rental-Runs cfg n rest id a s inv.0)
          (process_rental-Kept cfg n rest id a s inv.0 inv.1))
        (λ u t later. process_rentals-Kept rest t later)

  -- On well-formed storage the hook `on_initialize` does not panic and returns no error; if it ends,
  -- the storage is well-formed again and nothing is pending in the block.
  pub on_initialize-WellFormed :
      (s : State L)
      → WellFormed cfg s
      → Runs (λ t. WellFormed cfg t × (t.pending_rentals n ≡ [])) (on_initialize cfg n s)
  unfolding on_initialize do_process_rental_periods
  on_initialize-WellFormed s inv =
      Runs-continue (λ t. Remaining n [] t × Kept cfg t)
        (λ t. WellFormed cfg t × (t.pending_rentals n ≡ []))
        (process_rentals cfg (s.pending_rentals n) s) _
        (process_rentals-Kept (s.pending_rentals n) s
          (rw (update_same s.pending_rentals n) inv.leased, inv.kept))
        (λ u t later. (
          record { leased = later.0; kept = cleared-Kept cfg n t later.1 },
          update_self t.pending_rentals n [],
        ))
