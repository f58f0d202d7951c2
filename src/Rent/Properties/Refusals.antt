-- ===== src/Rent/Properties/Refusals.antt =====
-- Why `rent` of pallets/rent/src/lib.rs returns an error, and what it leaves then.
use pallet_rent.Prelude.{
  ℕ, ◌<◌, ◌≡◌, refl, Bool, false, not, Option, none, some, [], ◌∷◌, ◌++◌, arith, leb, ◌==◌, is_none,
  eq_option, inl, inr, Bool-cases,
}
use pallet_rent.Rent.Types.{
  keep_alive, refused, Config, Collectible, State, no_collectible, rental_period_too_short,
  rental_period_too_long, cannot_rent_own_collectible, rent_not_available, already_rented,
  not_enough_balance, rent_payed,
}
use pallet_rent.Rent.Effects.{DispatchError, module_error, currency_error, unwrap_result}
use pallet_rent.Rent.Rules.{Transfer-cases}
use pallet_rent.Rent.Failures.{
  Fails, Fails-continue, Fails-ok_or, Fails-unwrap, Fails-ensure, Fails-unwrap_result,
}
use pallet_rent.Rent.Helpers.{mul_balance, transfer_funds, append_pending_rental_to_available_block}
use pallet_rent.Rent.Internal.{do_rent_collectible}
use pallet_rent.Rent.Calls.{signed, rent, within}

within-false :
    (test : ℕ → Bool) (o : Option ℕ)
    → within test o ≡ false
    → (m : ℕ) × (o ≡ some m) × (test m ≡ false)
within-false test none e = cc
within-false test (some m) e = (m, refl, e)

taken : (o : Option ℕ) → is_none o ≡ false → (x : ℕ) × (o ≡ some x)
taken none e = cc
taken (some x) e = (x, refl)

module _ {L : Type 0} (cfg : Config L) (s : State L) (a id blocks : ℕ) where
  -- What an error of `rent` says of the storage. No other error occurs.
  abbrev pub Refused : DispatchError → Type 0
  Refused (module_error no_collectible) = s.collectibles id ≡ none
  Refused (module_error rental_period_too_short) =
      (c : Collectible) × (m : ℕ) × (s.collectibles id ≡ some c)
      × (c.minimum_rental_period ≡ some m)
      × (blocks < m)
  Refused (module_error rental_period_too_long) =
      (c : Collectible) × (m : ℕ) × (s.collectibles id ≡ some c)
      × (c.maximum_rental_period ≡ some m)
      × (m < blocks)
  Refused (module_error cannot_rent_own_collectible) =
      (c : Collectible) × (s.collectibles id ≡ some c) × (c.lessor ≡ a)
  Refused (module_error rent_not_available) =
      (c : Collectible) × (x : ℕ) × (s.collectibles id ≡ some c) × (c.lessee ≡ some x)
  Refused (module_error not_enough_balance) =
      (c : Collectible) × (price : ℕ) × (s.collectibles id ≡ some c)
      × (c.price_per_block ≡ some price)
      × (cfg.free_balance s.balances a < mul_balance cfg price blocks)
  Refused (currency_error code) =
      (c : Collectible) × (price : ℕ) × (s.collectibles id ≡ some c)
      × (c.price_per_block ≡ some price)
      × (cfg.transfer s.balances a c.lessor (mul_balance cfg price blocks) keep_alive
          ≡ refused code)
  Refused _ = ⊥

  abbrev pub Tells : DispatchError → State L → Type 0
  Tells x t = (t ≡ s) × Refused x

  transfer-Refused :
      (c : Collectible) (price : ℕ)
      → s.collectibles id ≡ some c
      → c.price_per_block ≡ some price
      → Fails Tells (transfer_funds cfg a c.lessor (mul_balance cfg price blocks) s)
  unfolding transfer_funds
  transfer-Refused c price e p =
      let total = mul_balance cfg price blocks in
      elim (Bool-cases (leb total (cfg.free_balance s.balances a))) [
        | inl enough ↦ elim (Transfer-cases (cfg.transfer s.balances a c.lessor total keep_alive)) [
          | inl (l, m) ↦ rw (enough, m) tt
          | inr (code, m) ↦ rw (enough, m) (refl, (c, price, e, p, m))
        ]
        | inr short ↦ rw short (refl, (c, price, e, p, ground arith))
      ]

  do_rent-Refused :
      (recurring : Bool) (c : Collectible)
      → s.collectibles id ≡ some c
      → Fails Tells (do_rent_collectible cfg id a blocks recurring s)
  unfolding do_rent_collectible
  do_rent-Refused recurring c e = rw e (
      Fails-unwrap Tells c.price_per_block _ s λ price p.
        Fails-continue Tells (transfer_funds cfg a c.lessor (mul_balance cfg price blocks) s) _
          (transfer-Refused c price e p)
          λ u t paid.
            let total = mul_balance cfg price blocks in
            let t' = record t { events = t.events ++ rent_payed c.lessor a id total ∷ [] } in
            let appends = append_pending_rental_to_available_block cfg none blocks id a t' in
            Fails-continue Tells (unwrap_result appends) _ (Fails-unwrap_result Tells appends)
              λ b w last. tt)

  -- Every error that `rent` returns to a signed account says why: the collectible does not exist,
  -- the period is shorter than the minimum or longer than the maximum, the account is the lessor,
  -- there is a lessee already, the balance does not cover the price, or the currency refused. No
  -- other error is returned, `AlreadyRented` among them, and the storage is as it was.
  pub rent-Refused : (recurring : Bool) → Fails Tells (rent cfg (signed a) id blocks recurring s)
  unfolding rent
  rent-Refused recurring =
      Fails-ok_or Tells (s.collectibles id) no_collectible _ s (λ e. (refl, e))
        λ c e.
          Fails-ensure Tells (within (λ minimum. leb minimum blocks) c.minimum_rental_period)
            rental_period_too_short _ s
            (λ b.
              let (m, em, low) =
                within-false (λ minimum. leb minimum blocks) c.minimum_rental_period b in
              (refl, (c, m, e, em, ground arith)))
            λ long.
              Fails-ensure Tells (within (λ maximum. leb blocks maximum) c.maximum_rental_period)
                rental_period_too_long _ s
                (λ b.
                  let (m, em, high) =
                    within-false (λ maximum. leb blocks maximum) c.maximum_rental_period b in
                  (refl, (c, m, e, em, ground arith)))
                λ short.
                  Fails-ensure Tells (not (c.lessor == a)) cannot_rent_own_collectible _ s
                    (λ b. (refl, (c, e, ground arith)))
                    λ other.
                      Fails-ensure Tells (is_none c.lessee) rent_not_available _ s
                        (λ b. let (x, ex) = taken c.lessee b in (refl, (c, x, e, ex)))
                        λ free.
                          Fails-ensure Tells (not (eq_option c.lessee (some a))) already_rented _ s
                            (λ b. absurd (ground arith)) λ fresh. do_rent-Refused recurring c e
