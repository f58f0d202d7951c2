-- ===== src/Rent/Properties/Extension.antt =====
-- Why `extend_rent` of pallets/rent/src/lib.rs returns an error.
use pallet_rent.Prelude.{
  ℕ, ◌*◌, ◌%◌, ◌<◌, ◌≡◌, ◌≢◌, ◌⊎◌, refl, false, none, some, arith, leb, ◌==◌, is_none, inl, inr,
  Bool-cases, Option-cases,
}
use pallet_rent.Rent.Types.{
  keep_alive, refused, Config, Collectible, RentalPeriodConfig, State, no_collectible, no_lessee,
  not_lessee, rental_period_too_long, not_enough_balance,
}
use pallet_rent.Rent.Effects.{DispatchError, module_error, currency_error, ok, err}
use pallet_rent.Rent.Rules.{Transfer-cases}
use pallet_rent.Rent.Failures.{
  Fails, Fails-continue, Fails-ok_or, Fails-unwrap, Fails-ensure, Fails-lift,
}
use pallet_rent.Rent.Helpers.{
  u32_bound, add_blocks, transfer_funds, convert_to_primitive, ensure_user_is_lessee,
}
use pallet_rent.Rent.Helpers.Failing.{Fails-append}
use pallet_rent.Rent.Internal.{do_extend_rent}
use pallet_rent.Rent.Invariant.CallLeases.{Leased}
use pallet_rent.Rent.Calls.{signed, extend_rent}

convert-error : (n : ℕ) (x : DispatchError) → convert_to_primitive n ≡ err x → ⊥
unfolding convert_to_primitive
convert-error n x e = ground arith

convert-same : (n m : ℕ) → convert_to_primitive n ≡ ok m → m ≡ n
unfolding convert_to_primitive
convert-same n m e = ground arith

-- The error of `ensure_user_is_lessee`.
ensure_user_is_lessee-error :
    (a : ℕ) (c : Collectible) (x : DispatchError)
    → ensure_user_is_lessee a c ≡ err x
    → ((x ≡ module_error no_lessee) × (c.lessee ≡ none))
      ⊎ ((y : ℕ) × (x ≡ module_error not_lessee) × (c.lessee ≡ some y) × (y ≢ a))
unfolding ensure_user_is_lessee
ensure_user_is_lessee-error a c x e = elim (Option-cases c.lessee) [
  | inl free ↦ inl (ground (arith, e, free), free)
  | inr (y, held) ↦ elim (Bool-cases (y == a)) [
    | inl same ↦ absurd (ground (arith, e, held, same))
    | inr other ↦ inr (y, ground (arith, e, held, other), held, ground (arith, other))
  ]
]

ensure_user_is_lessee-held :
    (a : ℕ) (c : Collectible) (u : Unit {0}) → ensure_user_is_lessee a c ≡ ok u → c.lessee ≡ some a
unfolding ensure_user_is_lessee
ensure_user_is_lessee-held a c u e = ground (arith, e)

module _ {L : Type 0} (cfg : Config L) (s : State L) (a id blocks : ℕ) where
  -- The new due block of the rental of a collectible with lessee `a`, before it is placed.
  abbrev Due : Collectible → ℕ → Type 0
  Due c due =
      (r : RentalPeriodConfig) × (s.collectibles id ≡ some c)
      × (c.lessee ≡ some a)
      × (s.lessee_collectibles a id ≡ some r)
      × (due ≡ add_blocks cfg blocks r.next_rent_block)

  -- What an error of `extend_rent` says of the storage. No other error occurs.
  abbrev pub Denied : DispatchError → Type 0
  Denied (module_error no_collectible) = s.collectibles id ≡ none
  Denied (module_error no_lessee) =
      (c : Collectible) × (s.collectibles id ≡ some c) × (c.lessee ≡ none)
  Denied (module_error not_lessee) =
      (c : Collectible) × (x : ℕ) × (s.collectibles id ≡ some c) × (c.lessee ≡ some x) × (x ≢ a)
  Denied (module_error rental_period_too_long) =
      (c : Collectible) × (due maximum : ℕ) × Due c due
      × (c.maximum_rental_period ≡ some maximum)
      × (maximum < due)
  Denied (module_error not_enough_balance) =
      (c : Collectible) × (price : ℕ) × (s.collectibles id ≡ some c)
      × (c.price_per_block ≡ some price)
      × (cfg.free_balance s.balances a < blocks * price % u32_bound)
  Denied (currency_error code) =
      (c : Collectible) × (price : ℕ) × (s.collectibles id ≡ some c)
      × (c.price_per_block ≡ some price)
      × (cfg.transfer s.balances a c.lessor (blocks * price % u32_bound) keep_alive ≡ refused code)
  Denied _ = ⊥

  abbrev pub Says : DispatchError → State L → Type 0
  Says x t = (t ≡ s) × Denied x

  lessee-Denied :
      (c : Collectible) (x : DispatchError)
      → s.collectibles id ≡ some c
      → ensure_user_is_lessee a c ≡ err x
      → Denied x
  lessee-Denied c x known e = elim (ensure_user_is_lessee-error a c x e) [
    | inl (is, free) ↦ rw is (c, known, free)
    | inr (y, is, held, other) ↦ rw is (c, y, known, held, other)
  ]

  transfer-Denied :
      (c : Collectible) (price n m : ℕ)
      → s.collectibles id ≡ some c
      → c.price_per_block ≡ some price
      → n ≡ blocks
      → m ≡ price
      → Fails Says (transfer_funds cfg a c.lessor (n * m % u32_bound) s)
  unfolding transfer_funds
  transfer-Denied c price n m known priced same_blocks same_price =
      let total = blocks * price % u32_bound in
      rw (same_blocks, same_price)
        (elim (Bool-cases (leb total (cfg.free_balance s.balances a))) [
          | inl enough ↦
              elim (Transfer-cases (cfg.transfer s.balances a c.lessor total keep_alive)) [
                | inl (l, paid) ↦ rw (enough, paid) tt
                | inr (code, unpaid) ↦ rw (enough, unpaid) (refl, (c, price, known, priced, unpaid))
              ]
          | inr short ↦ rw short (refl, (c, price, known, priced, ground arith))
        ])

  -- Every error that `extend_rent` returns to a signed account on storage in which the rentals agree
  -- says why: the collectible does not exist, it has no lessee or another one, the sum of the
  -- blocks and of the due block exceeds the maximum period, the balance does not cover the price, or
  -- the currency refused. No other error is returned, and the storage is as it was.
  pub extend_rent-Denied : Leased s → Fails Says (extend_rent cfg (signed a) id blocks s)
  unfolding extend_rent do_extend_rent
  extend_rent-Denied inv =
      Fails-ok_or Says (s.collectibles id) no_collectible _ s (λ lost. (refl, lost))
        λ c known.
          let keyed : c.collectible_id ≡ id = (inv.fits id c known).keyed in
          Fails-lift Says (ensure_user_is_lessee a c) _ s
            (λ x other. (refl, lessee-Denied c x known other))
            λ u mine.
              let held = ensure_user_is_lessee-held a c u mine in
              let rental : is_none (s.lessee_collectibles a id) ≡ false =
                inv.leased a id (rw known held) in
              rw held (
                Fails-ok_or Says (s.lessee_collectibles a c.collectible_id) no_collectible _ s
                  (λ lost. absurd (ground (arith, lost, keyed, rental)))
                  λ r has_rental.
                    Fails-unwrap Says c.maximum_rental_period _ s λ maximum has_maximum.
                      Fails-ensure Says (leb (add_blocks cfg blocks r.next_rent_block) maximum)
                        rental_period_too_long _ s
                        (λ long. (
                          refl,
                          (
                            c,
                            add_blocks cfg blocks r.next_rent_block,
                            maximum,
                            (r, known, held, rw keyed at has_rental, refl),
                            has_maximum,
                            ground (arith, long),
                          ),
                        ))
                        λ short.
                          Fails-lift Says (convert_to_primitive blocks) _ s
                            (λ x big. absurd (convert-error blocks x big))
                            λ n small. Fails-unwrap Says c.price_per_block _ s λ price has_price.
                              Fails-lift Says (convert_to_primitive price) _ s
                                (λ x big. absurd (convert-error price x big))
                                λ m cheap.
                                  Fails-continue Says
                                    (transfer_funds cfg a c.lessor (n * m % u32_bound) s) _
                                    (transfer-Denied c price n m known has_price
                                      (convert-same blocks n small) (convert-same price m cheap))
                                    λ v t paid.
                                      Fails-continue Says _ _
                                        (Fails-append Says cfg _ n c.collectible_id a _)
                                        λ w k appended. tt)
