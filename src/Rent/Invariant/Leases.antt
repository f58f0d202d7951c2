-- ===== src/Rent/Invariant/Leases.antt =====
-- The rentals of pallets/rent/src/lib.rs: `Collectibles`, `LesseeCollectibles` and
-- `PendingRentals` agree with one another.
use pallet_rent.Prelude.{
  ℕ, ◌≤◌, ◌≡◌, ◌≢◌, inl, inr, refl, true, false, not, ◌||◌, Option, none, some, List, [], ◌∷◌, ◌++◌,
  arith, ◌==◌, is_none, eq_option, update, update₂, Bool-cases, ==_eq,
}
use pallet_rent.Rent.Types.{Collectible, RentalPeriodConfig}
use pallet_rent.Rent.Invariant.Entries.{
  Entry, entries, All, drop_entries, entries-append, entries-drop_self, entries-drop-le,
  All-append_one, All-drop, All-entry, All-others, All-map,
}

abbrev pub lessee_of : Option Collectible → Option ℕ
lessee_of none = none
lessee_of (some c) = c.lessee

abbrev pub block_of : Option RentalPeriodConfig → Option ℕ
block_of none = none
block_of (some r) = some r.next_rent_block

-- A stored collectible: it carries its key, it has a price exactly when it has a maximum period,
-- and a lessee is not the lessor, and has a price.
pub record IsFit (id : ℕ) (c : Collectible) : Type 0 where
  pub keyed : c.collectible_id ≡ id
  pub termed : is_none c.price_per_block ≡ is_none c.maximum_rental_period
  pub foreign : eq_option c.lessee (some c.lessor) ≡ false
  pub priced : (is_none c.lessee || not (is_none c.price_per_block)) ≡ true

-- A lessee's configuration is of a collectible with that lessee, a collectible with a lessee has
-- its configuration, and an entry of a block is of a lessee's configuration for that block, at most
-- one for each collectible.
pub record IsLeased (cs : ℕ → Option Collectible) (ls : ℕ → ℕ → Option RentalPeriodConfig)
    (ps : ℕ → List Entry) : Type 0 where
  pub fits : (id : ℕ) (c : Collectible) → cs id ≡ some c → IsFit id c
  pub rented : (a id : ℕ) → is_none (ls a id) ≡ false → lessee_of (cs id) ≡ some a
  pub leased : (a id : ℕ) → lessee_of (cs id) ≡ some a → is_none (ls a id) ≡ false
  pub pending : (b : ℕ) → All (λ e. block_of (ls e.1 e.0) ≡ some b) (ps b)
  pub distinct : (b id : ℕ) → entries id (ps b) ≤ 1

module _ {cs : ℕ → Option Collectible} {ls : ℕ → ℕ → Option RentalPeriodConfig}
    {ps : ℕ → List Entry} (inv : IsLeased cs ls ps) where
  -- A collectible is written or removed, and its lessee stays.
  pub put-IsLeased :
      (id : ℕ) (o : Option Collectible)
      → ((c : Collectible) → o ≡ some c → IsFit id c)
      → lessee_of o ≡ lessee_of (cs id)
      → IsLeased (update cs id o) ls ps
  put-IsLeased id o fit same = record {
    fits = λ j c e. elim (Bool-cases (id == j)) [
      | inl hit ↦ rw (← ==_eq id j hit) (fit c (ground arith))
      | inr miss ↦ inv.fits j c (ground arith)
    ];
    rented = λ a j h. ground (arith, inv.rented a j h);
    leased = λ a j h. ground (arith, inv.leased a j);
    pending = inv.pending;
    distinct = inv.distinct;
  }

  -- The entries of a block are replaced by some of them.
  pub drop-IsLeased :
      (b : ℕ) (es : List Entry)
      → All (λ e. block_of (ls e.1 e.0) ≡ some b) es
      → ((id : ℕ) → entries id es ≤ entries id (ps b))
      → IsLeased cs ls (update ps b es)
  drop-IsLeased b es kept fewer = record {
    fits = inv.fits;
    rented = inv.rented;
    leased = inv.leased;
    pending = λ d. elim (Bool-cases (b == d)) [
      | inl hit ↦ rw (hit, ← ==_eq b d hit) kept
      | inr miss ↦ rw miss (inv.pending d)
    ];
    distinct = λ d id. ground (arith, fewer id, inv.distinct d id);
  }

  -- All entries of a rented collectible stand in the block of its configuration.
  pub entries-elsewhere :
      (id a : ℕ) (r : RentalPeriodConfig)
      → ls a id ≡ some r
      → (b : ℕ) → b ≢ r.next_rent_block
      → entries id (ps b) ≡ 0
  entries-elsewhere id a r e b other = elim (All-entry _ id (ps b) (inv.pending b)) [
    | inl z ↦ z
    | inr (x, p) ↦ absurd (ground (arith, p, inv.rented x id, inv.rented a id))
  ]

  -- A collectible without lessee has no entries.
  pub entries-unleased : (id : ℕ) → lessee_of (cs id) ≡ none → (b : ℕ) → entries id (ps b) ≡ 0
  entries-unleased id free b = elim (All-entry _ id (ps b) (inv.pending b)) [
    | inl z ↦ z
    | inr (x, p) ↦ absurd (ground (arith, p, inv.rented x id))
  ]

  -- The configuration of a lessee is written, for a collectible that has no entries.
  pub set-IsLeased :
      (id a : ℕ) (r : RentalPeriodConfig)
      → lessee_of (cs id) ≡ some a
      → ((b : ℕ) → entries id (ps b) ≡ 0)
      → IsLeased cs (update₂ ls a id (some r)) ps
  set-IsLeased id a r held free = record {
    fits = inv.fits;
    rented = λ x j h. ground (arith, inv.rented x j);
    leased = λ x j h. ground (arith, inv.leased x j h);
    pending =
        λ b. All-others _ _ id (ps b) (free b) (λ j x ne p. ground (arith, p, ne)) (inv.pending b);
    distinct = inv.distinct;
  }

  -- An entry is appended to the block that its configuration names.
  pub append-IsLeased :
      (b id a : ℕ)
      → block_of (ls a id) ≡ some b
      → entries id (ps b) ≡ 0
      → IsLeased cs ls (update ps b (ps b ++ (id, a) ∷ []))
  append-IsLeased b id a named free = record {
    fits = inv.fits;
    rented = inv.rented;
    leased = inv.leased;
    pending = λ d. elim (Bool-cases (b == d)) [
      | inl hit ↦ rw (hit, ← ==_eq b d hit) (All-append_one _ (ps b) (id, a) (inv.pending b) named)
      | inr miss ↦ rw miss (inv.pending d)
    ];
    distinct = λ d j.
        ground (arith, inv.distinct d j, inv.distinct b j, entries-append j (ps b) ((id, a) ∷ []));
  }

  -- A collectible without lessee gets one.
  pub lease-IsLeased :
      (id a : ℕ) (c : Collectible) (r : RentalPeriodConfig)
      → cs id ≡ some c
      → c.lessee ≡ none
      → is_none c.price_per_block ≡ false
      → c.lessor ≢ a
      → IsLeased (update cs id (some (record c { lessee = some a }))) (update₂ ls a id (some r)) ps
  lease-IsLeased id a c r e free price other = record {
    fits = λ j d h. elim (Bool-cases (id == j)) [
      | inl hit ↦ ground (arith, inv.fits id c e)
      | inr miss ↦ inv.fits j d (ground arith)
    ];
    rented = λ x j h. ground (arith, inv.rented x j);
    leased = λ x j h. ground (arith, inv.leased x j);
    pending = λ b.
        All-others _ _ id (ps b) (entries-unleased id (rw e free) b)
          (λ j x ne p. ground (arith, p, ne)) (inv.pending b);
    distinct = inv.distinct;
  }

  -- A collectible without entries loses its lessee.
  pub release-IsLeased :
      (id a : ℕ) (c : Collectible)
      → cs id ≡ some c
      → c.lessee ≡ some a
      → ((b : ℕ) → entries id (ps b) ≡ 0)
      → IsLeased (update cs id (some (record c { lessee = none }))) (update₂ ls a id none) ps
  release-IsLeased id a c e held free = record {
    fits = λ j d h. elim (Bool-cases (id == j)) [
      | inl hit ↦ ground (arith, inv.fits id c e)
      | inr miss ↦ inv.fits j d (ground arith)
    ];
    rented = λ x j h. ground (arith, inv.rented x j);
    leased = λ x j h. ground (arith, inv.leased x j);
    pending =
        λ b. All-others _ _ id (ps b) (free b) (λ j x ne p. ground (arith, p, ne)) (inv.pending b);
    distinct = inv.distinct;
  }

  -- A configuration changes, and its block stays.
  pub renew-IsLeased :
      (id a : ℕ) (r t : RentalPeriodConfig)
      → ls a id ≡ some r
      → t.next_rent_block ≡ r.next_rent_block
      → IsLeased cs (update₂ ls a id (some t)) ps
  renew-IsLeased id a r t e same = record {
    fits = inv.fits;
    rented = λ x j h. ground (arith, inv.rented x j);
    leased = λ x j h. ground (arith, inv.leased x j h);
    pending = λ b. All-map _ _ (ps b) (λ j x p. ground (arith, p)) (inv.pending b);
    distinct = inv.distinct;
  }

module _ {cs : ℕ → Option Collectible} {ls : ℕ → ℕ → Option RentalPeriodConfig}
    {ps : ℕ → List Entry} (inv : IsLeased cs ls ps) where
  -- Without the entries of its block, a rented collectible has none.
  pub entries-gone :
      (id a : ℕ) (r : RentalPeriodConfig) (es : List Entry)
      → ls a id ≡ some r
      → entries id es ≡ 0
      → (b : ℕ) → entries id (update ps r.next_rent_block es b) ≡ 0
  entries-gone id a r es e gone b = elim (Bool-cases (r.next_rent_block == b)) [
    | inl hit ↦ rw hit gone
    | inr miss ↦ rw miss (entries-elsewhere inv id a r e b (ground arith))
  ]

  -- The entry of a rental moves to the block that its new configuration names.
  pub move-IsLeased :
      (id a : ℕ) (r t : RentalPeriodConfig)
      → ls a id ≡ some r
      → let old = r.next_rent_block in
        let b = t.next_rent_block in
        let qs = update ps old (drop_entries id (ps old)) in
        IsLeased cs (update₂ ls a id (some t)) (update qs b (qs b ++ (id, a) ∷ []))
  move-IsLeased id a r t e =
      let old = r.next_rent_block in
      let dropped =
        drop-IsLeased inv old (drop_entries id (ps old)) (All-drop _ id (ps old) (inv.pending old))
          (λ j. entries-drop-le id j (ps old)) in
      let gone = entries-gone id a r (drop_entries id (ps old)) e (entries-drop_self id (ps old)) in
      let held = inv.rented a id (rw e refl) in
      append-IsLeased (set-IsLeased dropped id a t held gone) t.next_rent_block id a (ground arith)
        (gone t.next_rent_block)
