-- ===== src/Rent/Properties/Payment.antt =====
-- The money that `rent` and `extend_rent` of pallets/rent/src/lib.rs move, given what the currency
-- documents of a transfer.
use pallet_rent.Prelude.{ℕ, ◌+◌, ◌*◌, ◌%◌, ◌≡◌, ◌≢◌, ap, Bool, Option, some, arith}
use pallet_rent.Rent.Types.{keep_alive, moved, Config, Collectible, State}
use pallet_rent.Rent.Rules.{Post, Post-map}
use pallet_rent.Rent.Helpers.{u32_bound, mul_balance}
use pallet_rent.Rent.Calls.{signed, rent, extend_rent}
use pallet_rent.Rent.Invariant.CallLeases.{Leased}
use pallet_rent.Rent.Calls.Renting.{Takes, rent-Takes, Prolongs, extend_rent-Prolongs}

-- What the documentation of `Currency::transfer` and `free_balance` says: a transfer between two
-- accounts that succeeds takes the amount from one and gives it to the other, and touches no third.
pub record CurrencyLaws {L : Type 0} (cfg : Config L) : Type 0 where
  pub debit :
      (l k : L) (from to amount : ℕ)
      → from ≢ to
      → cfg.transfer l from to amount keep_alive ≡ moved k
      → cfg.free_balance k from + amount ≡ cfg.free_balance l from
  pub credit :
      (l k : L) (from to amount : ℕ)
      → from ≢ to
      → cfg.transfer l from to amount keep_alive ≡ moved k
      → cfg.free_balance k to ≡ cfg.free_balance l to + amount
  pub others :
      (l k : L) (from to amount x : ℕ)
      → x ≢ from
      → x ≢ to
      → cfg.transfer l from to amount keep_alive ≡ moved k
      → cfg.free_balance k x ≡ cfg.free_balance l x

same_lessee : {o : Option ℕ} {a b : ℕ} → o ≡ some a → o ≡ some b → a ≡ b
same_lessee p q = ground arith

module _ {L : Type 0} (cfg : Config L) (laws : CurrencyLaws cfg) where
  -- The amount goes from one account to the other, and no other balance changes.
  pub record Pays (s t : State L) (from to amount : ℕ) : Type 0 where
    pub debited : cfg.free_balance t.balances from + amount ≡ cfg.free_balance s.balances from
    pub credited : cfg.free_balance t.balances to ≡ cfg.free_balance s.balances to + amount
    pub untouched :
        (x : ℕ) → x ≢ from → x ≢ to → cfg.free_balance t.balances x ≡ cfg.free_balance s.balances x

  transfer-Pays :
      (s t : State L) (from to amount : ℕ)
      → from ≢ to
      → cfg.transfer s.balances from to amount keep_alive ≡ moved t.balances
      → Pays s t from to amount
  transfer-Pays s t from to amount ne e = record {
    debited = laws.debit s.balances t.balances from to amount ne e;
    credited = laws.credit s.balances t.balances from to amount ne e;
    untouched = λ x nf nt. laws.others s.balances t.balances from to amount x nf nt e;
  }

  -- A successful `rent` by `a` moves the price per block times the number of blocks, as a balance,
  -- from `a` to the lessor, and changes no other balance.
  pub rent-Pays :
      (a id blocks : ℕ) (recurring : Bool) (s : State L)
      → Post
          (λ t.
            (c : Collectible) × (price : ℕ) × (s.collectibles id ≡ some c)
            × (c.price_per_block ≡ some price)
            × Pays s t a c.lessor (mul_balance cfg price blocks))
          (rent cfg (signed a) id blocks recurring s)
  rent-Pays a id blocks recurring s =
      Post-map (Takes cfg s a id blocks recurring) _ _
        (λ t h.
          let r = h.rents in
          (
            h.collectible,
            r.price,
            h.known,
            r.has_price,
            transfer-Pays s t a h.collectible.lessor (mul_balance cfg r.price blocks)
                (λ e. h.not_own (ground arith))
                (rw (ap (λ (v : State L). v.balances) r.left) r.transferred),
          ))
        (rent-Takes cfg s a id blocks recurring)

  -- On storage in which the rentals agree, a successful `extend_rent` by `a` moves the price times
  -- the number of blocks, reduced modulo 2 ^ 32, from `a` to the lessor, and changes no other balance.
  pub extend_rent-Pays :
      (a id blocks : ℕ) (s : State L)
      → Leased s
      → Post
          (λ t.
            (c : Collectible) × (price : ℕ) × (s.collectibles id ≡ some c)
            × (c.price_per_block ≡ some price)
            × Pays s t a c.lessor (blocks * price % u32_bound))
          (extend_rent cfg (signed a) id blocks s)
  extend_rent-Pays a id blocks s inv =
      Post-map (Prolongs cfg s a id blocks) _ _
        (λ t h.
          let x = h.extends in
          (
            h.collectible,
            x.price,
            h.known,
            x.has_price,
            transfer-Pays s t a h.collectible.lessor (blocks * x.price % u32_bound)
                (λ e. ground (arith, e, h.held, inv.fits id h.collectible h.known))
                (rw (ap (λ (v : State L). v.balances) x.left)
                  (rw (same_lessee x.has_lessee h.held) at x.transferred)),
          ))
        (extend_rent-Prolongs cfg s a id blocks)
