-- ===== src/Rent/Invariant/ProcessLeases.antt =====
-- `do_process_rental_periods` of pallets/rent/src/lib.rs on storage in which the rentals agree: it
-- does not panic, and the rentals agree after it.
use pallet_rent.Prelude.{
  ℕ, ◌≡◌, refl, sym, not, ◌||◌, Option, some, List, [], ◌∷◌, ◌++◌, inl, inr, arith, Option-cases,
  Bool-cases, ◌==◌, is_none, update, update_self, update-update, update-swap, ==_eq,
}
use pallet_rent.Rent.Types.{
  Config, Collectible, RentalPeriodConfig, Event, rent_payed, rental_ended, error_transfering_rent,
  State,
}
use pallet_rent.Rent.Rules.{Runs, Runs-unwrap, Runs-when, Runs-if}
use pallet_rent.Rent.Helpers.{
  rounds, add_blocks, mul_balance, append_pending_rental_to_available_block,
}
use pallet_rent.Rent.Helpers.Results.{find_block-cases, transfer_funds-cases}
use pallet_rent.Rent.Internal.{
  end_rental, append_rental, renew_rental, charge_rental, process_rental,
}
use pallet_rent.Rent.Invariant.Entries.{Entry, entries}
use pallet_rent.Rent.Invariant.Leases.{
  IsLeased, drop-IsLeased, release-IsLeased, set-IsLeased, append-IsLeased, entries-elsewhere,
}

-- The rentals agree where `rest` stands in for the entries of the block `n`: in the loop, the
-- entries that are still to be processed.
abbrev pub Remaining : {L : Type 0} → ℕ → List Entry → State L → Type 0
Remaining n rest s = IsLeased s.collectibles s.lessee_collectibles (update s.pending_rentals n rest)

-- What is known of the first entry to be processed.
pub record Front (cs : ℕ → Option Collectible) (ls : ℕ → ℕ → Option RentalPeriodConfig)
    (ps : ℕ → List Entry) (n id a : ℕ) (rest : List Entry) : Type 0 where
  pub rental : RentalPeriodConfig
  pub rented : ls a id ≡ some rental
  pub collectible : Collectible
  pub known : cs id ≡ some collectible
  pub keyed : collectible.collectible_id ≡ id
  pub held : collectible.lessee ≡ some a
  pub price : ℕ
  pub priced : collectible.price_per_block ≡ some price
  pub others : IsLeased cs ls (update ps n rest)
  pub gone : (b : ℕ) → entries id (update ps n rest b) ≡ 0

pub front :
    {cs : ℕ → Option Collectible} {ls : ℕ → ℕ → Option RentalPeriodConfig} {ps : ℕ → List Entry}
    (n id a : ℕ) (rest : List Entry)
    → IsLeased cs ls (update ps n ((id, a) ∷ rest))
    → Front cs ls ps n id a rest
front {cs} {ls} {ps} n id a rest inv =
    let at_n = update_self ps n ((id, a) ∷ rest) in
    let (first, later) = rw at_n at (inv.pending n) in
    let once = rw at_n at (inv.distinct n id) in
    elim (Option-cases (ls a id)) [
      | inl none_rented ↦ absurd (ground (arith, first))
      | inr (r, er) ↦ elim (Option-cases (cs id)) [
        | inl unknown ↦ absurd (ground (arith, inv.rented a id))
        | inr (c, ec) ↦ elim (Option-cases c.price_per_block) [
          | inl no_price ↦ absurd (ground (arith, inv.rented a id, inv.fits id c ec))
          | inr (p, ep) ↦ record {
            rental = r;
            rented = er;
            collectible = c;
            known = ec;
            keyed = (inv.fits id c ec).keyed;
            held = ground (arith, inv.rented a id);
            price = p;
            priced = ep;
            others =
                rw (update-update ps n n ((id, a) ∷ rest) rest refl) at
                  (drop-IsLeased inv n rest later (λ j. ground arith));
            gone = λ b. elim (Bool-cases (n == b)) [
              | inl here ↦ rw here (ground arith)
              | inr miss ↦ ground (arith, miss, entries-elsewhere inv id a r er b)
            ];
          }
        ]
      ]
    ]

module _ {L : Type 0} (cfg : Config L) (n : ℕ) (rest : List Entry) where
  pub end_rental-Runs :
      (report : ℕ → ℕ → ℕ → Event) (id a : ℕ) (s : State L)
      (f : Front s.collectibles s.lessee_collectibles s.pending_rentals n id a rest)
      → Runs (Remaining n rest) (end_rental cfg report a id f.collectible s)
  unfolding process_rental
  end_rental-Runs report id a s f =
      let released = release-IsLeased f.others id a f.collectible f.known f.held f.gone in
      ground (arith, f.keyed, released)

  pub append_rental-Runs :
      (id a : ℕ) (s : State L)
      (f : Front s.collectibles s.lessee_collectibles s.pending_rentals n id a rest)
      → Runs (Remaining n rest) (append_rental cfg a id f.rental s)
  unfolding append_rental append_pending_rental_to_available_block
  append_rental-Runs id a s f =
      elim (find_block-cases cfg rounds s.block_number s.pending_rentals
        (add_blocks cfg s.block_number f.rental.rental_periodic_interval)) [
          | inl (b, found) ↦
              let next = record f.rental { next_rent_block = b } in
              let set = set-IsLeased f.others id a next (rw f.known f.held) f.gone in
              elim (Bool-cases (n == b)) [
                | inl hit ↦
                    rw
                      (
                        found,
                        update-update s.pending_rentals b n (s.pending_rentals b ++ (id, a) ∷ [])
                            rest (sym (==_eq n b hit)),
                      )
                      set
                | inr miss ↦
                    rw
                      (
                        found,
                        update-swap s.pending_rentals b n (s.pending_rentals b ++ (id, a) ∷ []) rest
                            (ground arith),
                      )
                      (rw miss at (append-IsLeased set b id a (ground arith) (f.gone b)))
              ]
          | inr lost ↦ ground arith
        ]

  pub renew_rental-Runs :
      (id a total : ℕ) (s : State L)
      (f : Front s.collectibles s.lessee_collectibles s.pending_rentals n id a rest)
      → Runs (Remaining n rest) (renew_rental cfg a id f.collectible f.rental total s)
  unfolding renew_rental
  renew_rental-Runs id a total s f =
      let t = record s { events = s.events ++ rent_payed f.collectible.lessor a id total ∷ [] } in
      Runs-when (Remaining n rest) f.rental.recurring (append_rental cfg a id f.rental) t
        (append_rental-Runs id a t f) f.others

  pub charge_rental-Runs :
      (id a : ℕ) (s : State L)
      (f : Front s.collectibles s.lessee_collectibles s.pending_rentals n id a rest)
      → Runs (Remaining n rest) (charge_rental cfg a id f.collectible f.rental s)
  unfolding charge_rental
  charge_rental-Runs id a s f =
      let total = mul_balance cfg f.price f.rental.rental_periodic_interval in
      Runs-unwrap (Remaining n rest) f.collectible.price_per_block _ s f.price f.priced
        (elim (transfer_funds-cases cfg a f.collectible.lessor total s) [
          | inl (l, paid) ↦ rw paid (renew_rental-Runs id a total (record s { balances = l }) f)
          | inr (x, unpaid) ↦ rw unpaid (end_rental-Runs error_transfering_rent id a s f)
        ])

  -- One round of the loop ends the rental of the entry or renews it.
  pub process_rental-Runs :
      (id a : ℕ) (s : State L)
      → Remaining n ((id, a) ∷ rest) s
      → Runs (Remaining n rest) (process_rental cfg (id, a) s)
  unfolding process_rental
  process_rental-Runs id a s inv =
      let f = front n id a rest inv in
      let c = f.collectible in
      Runs-unwrap (Remaining n rest) (s.lessee_collectibles a id) _ s f.rental f.rented (
        Runs-unwrap (Remaining n rest) (s.collectibles id) _ s c f.known (
          Runs-if (Remaining n rest) (not c.rentable || is_none c.lessee || not f.rental.recurring)
            (end_rental cfg rental_ended a id c) (charge_rental cfg a id c f.rental) s
            (end_rental-Runs rental_ended id a s f) (charge_rental-Runs id a s f)))
