-- ===== src/Rent/Market/Lasting.antt =====
-- What lasts on the market: tenants until their rental is due, and lessors.
use pallet_rent.Prelude.{
  ℕ, ◌≡◌, ◌≢◌, inl, inr, refl, ◌∙◌, none, some, Option, update, ◌==◌, Bool-cases, ==_eq,
}
use pallet_rent.Rent.Market.{
  Deal, Market, Move, stayed, created, destroyed, offered, withdrawn, rented, repeated, prolonged,
  Turn, ended, renewed, Turns, done, turn,
}

-- The collectible is let to `a`.
abbrev pub LetTo : ℕ → Option Deal → Type 0
LetTo a none = ⊥
LetTo a (some d) = elim d.tenant [ none ↦ ⊥ | some t ↦ t.lessee ≡ a ]

-- The collectible is gone, or is owned by `x`.
abbrev pub OwnedBy : ℕ → Option Deal → Type 0
OwnedBy x none = Unit
OwnedBy x (some d) = d.lessor ≡ x

-- A deal is replaced, in a way that keeps a property of it.
at_key :
    (P : Option Deal → Type 0) (m : Market) (id j : ℕ) (o n : Option Deal)
    → m j ≡ o
    → (P o → P n)
    → P (m id)
    → P (update m j n id)
at_key P m id j o n known keep h = elim (Bool-cases (j == id)) [
  | inl hit ↦ rw hit (keep (rw (← ==_eq j id hit, known) at h))
  | inr miss ↦ rw miss h
]

untenanted : (x : ℕ) (d : Deal) → d.tenant ≡ none → LetTo x (some d) → ⊥
untenanted x d free h = rw free at h

module _ (m u : Market) (id x : ℕ) where
  -- A move leaves a lessee its rental.
  pub Move-LetTo : (a : ℕ) → Move a m u → LetTo x (m id) → LetTo x (u id)
  Move-LetTo a (stayed e) h = rw e h
  Move-LetTo a (created j new e) h = rw e (at_key (LetTo x) m id j none _ new (λ k. absurd k) h)
  Move-LetTo a (destroyed j d known mine free e) h =
      rw e (at_key (LetTo x) m id j (some d) _ known (λ k. absurd (untenanted x d free k)) h)
  Move-LetTo a (offered j p lo hi d known mine free range e) h =
      rw e (at_key (LetTo x) m id j (some d) _ known (λ k. absurd (untenanted x d free k)) h)
  Move-LetTo a (withdrawn j d known mine e) h =
      rw e (at_key (LetTo x) m id j (some d) _ known (λ k. k) h)
  Move-LetTo a (rented j p d t known other free price low high who e) h =
      rw e (at_key (LetTo x) m id j (some d) _ known (λ k. absurd (untenanted x d free k)) h)
  Move-LetTo a (repeated j d t again known has who e) h =
      rw e (at_key (LetTo x) m id j (some d) _ known (λ k. rw has at k) h)
  Move-LetTo a (prolonged j due d t known has who e) h =
      rw e (at_key (LetTo x) m id j (some d) _ known (λ k. rw has at k) h)

  -- A move leaves a collectible its lessor, or destroys it.
  pub Move-OwnedBy : (a : ℕ) → Move a m u → m id ≢ none → OwnedBy x (m id) → OwnedBy x (u id)
  Move-OwnedBy a (stayed e) old h = rw e h
  Move-OwnedBy a (created j new e) old h = rw e (elim (Bool-cases (j == id)) [
    | inl hit ↦ absurd (old (rw (← ==_eq j id hit) new))
    | inr miss ↦ rw miss h
  ])
  Move-OwnedBy a (destroyed j d known mine free e) old h =
      rw e (at_key (OwnedBy x) m id j (some d) _ known (λ k. tt) h)
  Move-OwnedBy a (offered j p lo hi d known mine free range e) old h =
      rw e (at_key (OwnedBy x) m id j (some d) _ known (λ k. k) h)
  Move-OwnedBy a (withdrawn j d known mine e) old h =
      rw e (at_key (OwnedBy x) m id j (some d) _ known (λ k. k) h)
  Move-OwnedBy a (rented j p d t known other free price low high who e) old h =
      rw e (at_key (OwnedBy x) m id j (some d) _ known (λ k. k) h)
  Move-OwnedBy a (repeated j d t again known has who e) old h =
      rw e (at_key (OwnedBy x) m id j (some d) _ known (λ k. k) h)
  Move-OwnedBy a (prolonged j due d t known has who e) old h =
      rw e (at_key (OwnedBy x) m id j (some d) _ known (λ k. k) h)

-- A block leaves a collectible its lessor.
pub Turns-OwnedBy :
    (n : ℕ) {m u : Market} (id x : ℕ) → Turns n m u → OwnedBy x (m id) → OwnedBy x (u id)
Turns-OwnedBy n id x done h = h
Turns-OwnedBy n {m} id x (turn {u = v} t ts) h = Turns-OwnedBy n id x ts (Turn-OwnedBy t)
  where
    Turn-OwnedBy : Turn n m v → OwnedBy x (v id)
    Turn-OwnedBy (ended j d t known has due e) =
        rw e (at_key (OwnedBy x) m id j (some d) _ known (λ k. k) h)
    Turn-OwnedBy (renewed j next d t known has due again still e) =
        rw e (at_key (OwnedBy x) m id j (some d) _ known (λ k. k) h)

-- The rental of the collectible is due in another block.
abbrev pub NotDue : ℕ → Option Deal → Type 0
NotDue n none = ⊥
NotDue n (some d) = elim d.tenant [ none ↦ ⊥ | some t ↦ t.due ≢ n ]

-- A block leaves alone what is not due in it.
pub Turns-same : (n : ℕ) {m u : Market} (id : ℕ) → Turns n m u → NotDue n (m id) → u id ≡ m id
Turns-same n id done h = refl
Turns-same n {m} id (turn {u = v} t ts) h =
    let same = Turn-same t in Turns-same n id ts (rw same h) ∙ same
  where
    Turn-same : Turn n m v → v id ≡ m id
    Turn-same (ended j d t known has due e) = rw e (elim (Bool-cases (j == id)) [
      | inl hit ↦ absurd (rw (← ==_eq j id hit, known, has) at h due)
      | inr miss ↦ rw miss refl
    ])
    Turn-same (renewed j next d t known has due again still e) = rw e (elim (Bool-cases (j == id)) [
      | inl hit ↦ absurd (rw (← ==_eq j id hit, known, has) at h due)
      | inr miss ↦ rw miss refl
    ])
