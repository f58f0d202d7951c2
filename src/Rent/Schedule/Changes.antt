-- ===== src/Rent/Schedule/Changes.antt =====
-- What the writes of pallets/rent/src/lib.rs to the rentals and to the pending entries do to the schedule.
use mathlib.Core.Path.{subst}
use pallet_rent.Prelude.{
  ℕ, ◌≤◌, ◌<◌, ◌≡◌, ◌≢◌, ◌⊎◌, inl, inr, sym, ◌∙◌, Option, none, some, List, [], ◌∷◌, ◌++◌, arith,
  ◌==◌, Bool-cases, update, update_self, update_ne, ==_eq, update₂,
}
use pallet_rent.Rent.Types.{RentalPeriodConfig}
use pallet_rent.Rent.Invariant.Entries.{Entry, drop_entries}
use pallet_rent.Rent.Invariant.Occurrences.{
  Occurs, Occurs-append, Occurs-append_self, Occurs-tail, Occurs-drop,
}
use pallet_rent.Rent.Schedule.{Due}

update₂-cases :
    {V : Type 0} (f : ℕ → ℕ → V) (k l : ℕ) (v : V) (x j : ℕ)
    → ((k ≡ x) × (l ≡ j) × (update₂ f k l v x j ≡ v))
      ⊎ (((k ≢ x) ⊎ (l ≢ j)) × (update₂ f k l v x j ≡ f x j))
update₂-cases f k l v x j = elim (Bool-cases (k == x)) [
  | inl hit ↦ elim (Bool-cases (l == j)) [
    | inl same ↦ inl (ground (arith, hit), ground (arith, same), ground (arith, hit, same))
    | inr other ↦ inr (inr (ground (arith, other)), ground (arith, hit, other))
  ]
  | inr miss ↦ inr (inl (ground (arith, miss)), ground (arith, miss))
]

-- An entry stays where one is appended to some block.
Occurs-put :
    (ps : ℕ → List Entry) (b d id a j x : ℕ)
    → Occurs j x (ps d)
    → Occurs j x (update ps b (ps b ++ (id, a) ∷ []) d)
Occurs-put ps b d id a j x o = elim (Bool-cases (b == d)) [
  | inl hit ↦ rw hit (Occurs-append j x (ps b) (id, a) (ground (arith, o, hit)))
  | inr miss ↦ rw miss o
]

module _ (low longest : ℕ) (ls : ℕ → ℕ → Option RentalPeriodConfig) (id a : ℕ) where
  -- What is asked of the configuration of one rental, if there is one.
  abbrev pub Fresh : Option RentalPeriodConfig → (ℕ → List Entry) → Type 0
  Fresh o qs =
      (q : RentalPeriodConfig)
      → o ≡ some q
      → (low ≤ q.next_rent_block)
        × (0 < q.rental_periodic_interval)
        × (q.rental_periodic_interval ≤ longest)
        × Occurs id a (qs q.next_rent_block)

  -- One rental is written, and the entries of all others stay.
  pub set-Due :
      (ps qs : ℕ → List Entry) (o : Option RentalPeriodConfig)
      → Due low longest ls ps
      → Fresh o qs
      → ((x j : ℕ) (r : RentalPeriodConfig)
          → (a ≢ x) ⊎ (id ≢ j)
          → ls x j ≡ some r
          → Occurs j x (ps r.next_rent_block)
          → Occurs j x (qs r.next_rent_block))
      → Due low longest (update₂ ls a id o) qs
  set-Due ps qs o due fresh stay x j r e = elim (update₂-cases ls a id o x j) [
    | inl (same_lessee, same_id, is) ↦ rw⁻¹ (same_lessee, same_id) (fresh r (sym is ∙ e))
    | inr (other, is) ↦
        let known = sym is ∙ e in
        let (later, some_blocks, short, there) = due x j r known in
        (later, some_blocks, short, stay x j r other known there)
  ]

  Fresh-some :
      (q : RentalPeriodConfig) (qs : ℕ → List Entry)
      → low ≤ q.next_rent_block
      → 0 < q.rental_periodic_interval
      → q.rental_periodic_interval ≤ longest
      → Occurs id a (qs q.next_rent_block)
      → Fresh (some q) qs
  Fresh-some q qs later some_blocks short there r is =
      let same : q ≡ r = cc in
      subst
        (λ (p : RentalPeriodConfig).
          (low ≤ p.next_rent_block)
          × (0 < p.rental_periodic_interval)
          × (p.rental_periodic_interval ≤ longest)
          × Occurs id a (qs p.next_rent_block))
        same (later, some_blocks, short, there)

  -- A rental is stored, with an entry in its block.
  pub put-Due :
      (ps : ℕ → List Entry) (q : RentalPeriodConfig)
      → Due low longest ls ps
      → low ≤ q.next_rent_block
      → 0 < q.rental_periodic_interval
      → q.rental_periodic_interval ≤ longest
      → let b = q.next_rent_block in
        Due low longest (update₂ ls a id (some q)) (update ps b (ps b ++ (id, a) ∷ []))
  put-Due ps q due later some_blocks short =
      let b = q.next_rent_block in
      set-Due ps (update ps b (ps b ++ (id, a) ∷ [])) (some q) due
        (Fresh-some q (update ps b (ps b ++ (id, a) ∷ [])) later some_blocks short
          (rw (update_self ps b (ps b ++ (id, a) ∷ [])) (Occurs-append_self id a (ps b))))
        (λ x j r other known there. Occurs-put ps b r.next_rent_block id a j x there)

  -- A rental's configuration changes, and its block and its interval stay.
  pub keep-Due :
      (ps : ℕ → List Entry) (r q : RentalPeriodConfig)
      → Due low longest ls ps
      → ls a id ≡ some r
      → q.next_rent_block ≡ r.next_rent_block
      → q.rental_periodic_interval ≡ r.rental_periodic_interval
      → Due low longest (update₂ ls a id (some q)) ps
  keep-Due ps r q due known same_block same_interval =
      let (later, some_blocks, short, there) = due a id r known in
      set-Due ps ps (some q) due
        (Fresh-some q ps (omega (arith, same_block)) (omega (arith, same_interval))
          (omega (arith, same_interval)) (rw same_block there))
        (λ x j p other h stays. stays)

  -- The entries of other rentals than the first of the block `n`.
  tail-stays :
      (ps : ℕ → List Entry) (n d : ℕ) (rest : List Entry) (x j : ℕ)
      → (a ≢ x) ⊎ (id ≢ j)
      → Occurs j x (update ps n ((id, a) ∷ rest) d)
      → Occurs j x (update ps n rest d)
  tail-stays ps n d rest x j other o = elim (Bool-cases (n == d)) [
    | inl hit ↦ rw hit (Occurs-tail id a j x rest other (rw hit at o))
    | inr miss ↦ rw miss (rw miss at o)
  ]

  -- The entries of other collectibles than one that is dropped from the block `old`.
  kept-stays :
      (ps : ℕ → List Entry) (old d x j : ℕ)
      → id ≢ j
      → Occurs j x (ps d)
      → Occurs j x (update ps old (drop_entries id (ps old)) d)
  kept-stays ps old d x j other o = elim (Bool-cases (old == d)) [
    | inl hit ↦ rw hit (Occurs-drop id j x (ps old) other (rw (==_eq old d hit) o))
    | inr miss ↦ rw miss o
  ]

  -- The first entry of the block `n` is processed, and its rental is gone.
  pub drop-Due :
      (ps : ℕ → List Entry) (n : ℕ) (rest : List Entry)
      → Due low longest ls (update ps n ((id, a) ∷ rest))
      → Due low longest (update₂ ls a id none) (update ps n rest)
  drop-Due ps n rest due =
      set-Due (update ps n ((id, a) ∷ rest)) (update ps n rest) none due (λ q is. absurd (cc))
        (λ x j r other known. tail-stays ps n r.next_rent_block rest x j other)

  -- An entry is appended to some block, and `rest` still stands in for the block `n`.
  put-stays :
      (ps : ℕ → List Entry) (n b d : ℕ) (rest : List Entry) (x j : ℕ)
      → Occurs j x (update ps n rest d)
      → Occurs j x (update (update ps b (ps b ++ (id, a) ∷ [])) n rest d)
  put-stays ps n b d rest x j o = elim (Bool-cases (n == d)) [
    | inl hit ↦ rw hit (rw hit at o)
    | inr miss ↦ rw miss (Occurs-put ps b d id a j x (rw miss at o))
  ]

  -- The first entry of the block `n` is processed, and its rental is in another block.
  pub renew-Due :
      (ps : ℕ → List Entry) (n : ℕ) (rest : List Entry) (q : RentalPeriodConfig)
      → Due low longest ls (update ps n ((id, a) ∷ rest))
      → n < q.next_rent_block
      → low ≤ q.next_rent_block
      → 0 < q.rental_periodic_interval
      → q.rental_periodic_interval ≤ longest
      → let b = q.next_rent_block in
        Due low longest
          (update₂ ls a id (some q))
          (update (update ps b (ps b ++ (id, a) ∷ [])) n rest)
  renew-Due ps n rest q due after later some_blocks short =
      let b = q.next_rent_block in
      let es = ps b ++ (id, a) ∷ [] in
      let qs = update (update ps b es) n rest in
      set-Due (update ps n ((id, a) ∷ rest)) qs (some q) due
        (Fresh-some q qs later some_blocks short (
          rw (update_ne (update ps b es) n b rest (λ e. omega (arith, after, e)))
            (rw (update_self ps b es) (Occurs-append_self id a (ps b)))))
        (λ x j r other known there.
          put-stays ps n b r.next_rent_block rest x j
            (tail-stays ps n r.next_rent_block rest x j other there))

  -- The entry of a rental moves to another block.
  pub move-Due :
      (ps : ℕ → List Entry) (old : ℕ) (q : RentalPeriodConfig)
      → Due low longest ls ps
      → ((x : ℕ) (r : RentalPeriodConfig) → ls x id ≡ some r → a ≡ x)
      → low ≤ q.next_rent_block
      → 0 < q.rental_periodic_interval
      → q.rental_periodic_interval ≤ longest
      → let b = q.next_rent_block in
        let kept = update ps old (drop_entries id (ps old)) in
        Due low longest (update₂ ls a id (some q)) (update kept b (kept b ++ (id, a) ∷ []))
  move-Due ps old q due only later some_blocks short =
      let b = q.next_rent_block in
      let kept = update ps old (drop_entries id (ps old)) in
      let es = kept b ++ (id, a) ∷ [] in
      set-Due ps (update kept b es) (some q) due
        (Fresh-some q (update kept b es) later some_blocks short
          (rw (update_self kept b es) (Occurs-append_self id a (kept b))))
        (λ x j r other known there. Occurs-put kept b r.next_rent_block id a j x (
          kept-stays ps old r.next_rent_block x j
            (λ same. elim other [
              | inl another ↦ another (only x r (rw same known))
              | inr apart ↦ apart same
            ])
            there))
