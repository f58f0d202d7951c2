-- ===== src/Rent/Market/Tenure.antt =====
-- Security of tenure: what a step of the chain of pallets/rent/src/lib.rs does to a lessee and to a
-- lessor. The argument is about the market alone, and carried over by the refinement.
use pallet_rent.Prelude.{
  ℕ, ◌+◌, ◌≡◌, ◌≢◌, ◌⊎◌, inl, inr, refl, ap, none, some, Option, Option-cases,
}
use pallet_rent.Rent.Types.{Config, Collectible, RentalPeriodConfig, State}
use pallet_rent.Rent.Rules.{Post-elim}
use pallet_rent.Rent.Effects.{ok}
use pallet_rent.Rent.Calls.{root, signed, unsigned, on_initialize}
use pallet_rent.Rent.Invariant.CallLeases.{Leased}
use pallet_rent.Rent.Invariant.Leases.{lessee_of}
use pallet_rent.Rent.Chain.{Call, dispatch, Step, called, refused, block, elsewhere}
use pallet_rent.Rent.Market.{Move, stayed, Turns}
use pallet_rent.Rent.Market.View.{Rentals, view, deal, view-known}
use pallet_rent.Rent.Market.Calls.{Moved, dispatch-Moved}
use pallet_rent.Rent.Market.Blocks.{on_initialize-Turns}
use pallet_rent.Rent.Market.Lasting.{
  LetTo, OwnedBy, Move-LetTo, Move-OwnedBy, Turns-OwnedBy, Turns-same,
}
use pallet_rent.Rent.Chain.Origins.{unsigned_refused}

LetTo-lessee :
    (id a : ℕ) (o : Option Collectible) (ls : Rentals)
    → LetTo a (deal id o ls)
    → lessee_of o ≡ some a
LetTo-lessee id a none ls h = absurd h
LetTo-lessee id a (some c) ls h = elim (Option-cases c.lessee) [
  | inl free ↦ absurd (rw free at h)
  | inr (x, held) ↦ elim (Option-cases (ls x id)) [
    | inl lost ↦ absurd (rw (held, lost) at h)
    | inr (r, kept) ↦ rw held (ap some (rw (held, kept) at h))
  ]
]

OwnedBy-lessor :
    (id x : ℕ) (o : Option Collectible) (ls : Rentals)
    → OwnedBy x (deal id o ls)
    → (o ≡ none) ⊎ ((c : Collectible) × (o ≡ some c) × (c.lessor ≡ x))
OwnedBy-lessor id x none ls h = inl refl
OwnedBy-lessor id x (some c) ls h = inr (c, refl, h)

module _ {L : Type 0} (cfg : Config L) where
  -- What a call and a block of the chain do on the market.
  called-Move :
      (s t : State L) (call : Call) (a : ℕ)
      → dispatch cfg call (signed a) s ≡ (ok tt, t)
      → Leased s
      → Move a (view s) (view t)
  called-Move s t call a e inv =
      Post-elim (Moved cfg s a) (dispatch cfg call (signed a) s) tt t
        (dispatch-Moved cfg s a inv call) e

  block-Turns :
      (s t : State L)
      → on_initialize cfg
          (s.block_number + 1)
          (record s { block_number = s.block_number + 1; extrinsic_index = none })
        ≡ (ok tt, t)
      → Leased s
      → Turns (s.block_number + 1) (view s) (view t)
  block-Turns s t e inv =
      let n = s.block_number + 1 in
      let u = record s { block_number = n; extrinsic_index = none } in
      Post-elim (λ v. Turns n (view s) (view v)) (on_initialize cfg n u) tt t
        (on_initialize-Turns cfg n u inv) e

  market_move :
      {s t : State L}
      → Step cfg s t
      → Leased s
      → ((a : ℕ) × Move a (view s) (view t)) ⊎ Turns (s.block_number + 1) (view s) (view t)
  market_move {s} {t} (called call (signed a) e) inv = inl (a, called-Move s t call a e inv)
  market_move {s} (called call root e) inv = absurd (cc (unsigned_refused cfg call root s refl))
  market_move {s} (called call unsigned e) inv =
      absurd (cc (unsigned_refused cfg call unsigned s refl))
  market_move (refused call origin x t e) inv = inl (0, stayed refl)
  market_move {s} {t} (block e) inv = inr (block-Turns s t e inv)
  market_move (elsewhere l i) inv = inl (0, stayed refl)

  -- The step is not the block in which the rental is due.
  abbrev pub Undue : {s t : State L} → Step cfg s t → RentalPeriodConfig → Type 0
  Undue {s} (block e) r = r.next_rent_block ≢ s.block_number + 1
  Undue (called call origin e) r = Unit
  Undue (refused call origin x t e) r = Unit
  Undue (elsewhere l i) r = Unit

  Step-LetTo :
      {s t : State L} (id a : ℕ) (c : Collectible) (r : RentalPeriodConfig) (step : Step cfg s t)
      → Undue step r
      → Leased s
      → s.collectibles id ≡ some c
      → c.lessee ≡ some a
      → s.lessee_collectibles a id ≡ some r
      → LetTo a (view s id)
      → LetTo a (view t id)
  Step-LetTo {s} {t} id a c r (called call (signed x) e) undue inv known held configured let_to =
      Move-LetTo (view s) (view t) id a x (called-Move s t call x e inv) let_to
  Step-LetTo {s} id a c r (called call root e) undue inv known held configured let_to =
      absurd (cc (unsigned_refused cfg call root s refl))
  Step-LetTo {s} id a c r (called call unsigned e) undue inv known held configured let_to =
      absurd (cc (unsigned_refused cfg call unsigned s refl))
  Step-LetTo id a c r (refused call origin x t e) undue inv known held configured let_to = let_to
  Step-LetTo {s} {t} id a c r (block e) undue inv known held configured let_to =
      rw
        (Turns-same (s.block_number + 1) id (block-Turns s t e inv)
          (rw (known, held, configured) undue))
        let_to
  Step-LetTo id a c r (elsewhere l i) undue inv known held configured let_to = let_to

  -- No step of the chain takes a rental from its lessee, but the block in which it is due: on storage
  -- in which the rentals agree, a rented collectible has the same lessee after any call by anybody,
  -- the lessor included, after anything that other pallets do, and after every block in which its
  -- rental is not due.
  pub lessee_stays :
      {s t : State L} (id a : ℕ) (c : Collectible) (r : RentalPeriodConfig) (step : Step cfg s t)
      → Undue step r
      → Leased s
      → s.collectibles id ≡ some c
      → c.lessee ≡ some a
      → s.lessee_collectibles a id ≡ some r
      → lessee_of (t.collectibles id) ≡ some a
  lessee_stays {s} {t} id a c r step undue inv known held configured =
      LetTo-lessee id a (t.collectibles id) t.lessee_collectibles (
        Step-LetTo id a c r step undue inv known held configured
          (rw (known, held, configured) refl))

  -- No step of the chain gives a collectible to another lessor: on storage in which the rentals
  -- agree, after a step a collectible is gone or has the lessor that it had.
  pub lessor_stays :
      {s t : State L} (id : ℕ) (c : Collectible)
      → Leased s
      → Step cfg s t
      → s.collectibles id ≡ some c
      → (t.collectibles id ≡ none)
        ⊎ ((d : Collectible) × (t.collectibles id ≡ some d) × (d.lessor ≡ c.lessor))
  lessor_stays {s} {t} id c inv step known =
      let owned : OwnedBy c.lessor (view s id) = rw known refl in
      let there : view s id ≢ none = λ e. cc (view-known s id c known) in
      OwnedBy-lessor id c.lessor (t.collectibles id) t.lessee_collectibles
        (elim (market_move step inv) [
          | inl (x, move) ↦ Move-OwnedBy (view s) (view t) id c.lessor x move there owned
          | inr turns ↦ Turns-OwnedBy (s.block_number + 1) id c.lessor turns owned
        ])
