-- ===== src/Rent/Consent.antt =====
-- Who pays in pallets/rent/src/lib.rs: an account that makes no call and has agreed to no recurring rental
-- loses nothing.
pub mod Calls
pub mod Blocks
pub mod Absence
use pallet_rent.Prelude.{
  ℕ, ◌+◌, Option, ◌≤◌, ◌≡◌, ◌≢◌, false, some, arith, ◌==◌, Bool-cases, inl, inr,
}
use pallet_rent.Rent.Types.{keep_alive, moved, Config, RentalPeriodConfig, State}
use pallet_rent.Rent.Properties.Payment.{CurrencyLaws}

-- None of the rentals of `x` is recurring.
abbrev pub Once : ℕ → (ℕ → ℕ → Option RentalPeriodConfig) → Type 0
Once x rentals = (id : ℕ) (r : RentalPeriodConfig) → rentals x id ≡ some r → r.recurring ≡ false

module _ {L : Type 0} (cfg : Config L) (x : ℕ) (s : State L) where
  -- The account has lost nothing and still has no recurring rental.
  pub record Spares (t : State L) : Type 0 where
    pub not_less : cfg.free_balance s.balances x ≤ cfg.free_balance t.balances x
    pub once : Once x t.lessee_collectibles

-- A transfer takes nothing from an account that is not its source.
pub transfer-spares :
    {L : Type 0} (cfg : Config L) (laws : CurrencyLaws cfg) (l k : L) (from to amount x : ℕ)
    → from ≢ x
    → cfg.transfer l from to amount keep_alive ≡ moved k
    → cfg.free_balance l x ≤ cfg.free_balance k x
transfer-spares cfg laws l k from to amount x other paid = elim (Bool-cases (to == x)) [
  | inl payee ↦
      let same : to ≡ x = ground (arith, payee) in
      let apart : from ≢ to = λ e. other (ground (arith, e, same)) in
      let more = laws.credit l k from to amount apart paid in
      let gained : cfg.free_balance k x ≡ cfg.free_balance l x + amount = rw same at more in
      omega (arith, gained)
  | inr third ↦
      let kept : cfg.free_balance k x ≡ cfg.free_balance l x =
        laws.others l k from to amount x (λ e. other (ground (arith, e)))
          (λ e. ground (arith, e, third)) paid in
      omega (arith, kept)
]
