-- ===== src/Rent/Invariant/Entries.antt =====
-- Lists of pending rentals, the values of the storage map `PendingRentals` of
-- pallets/rent/src/lib.rs: how many entries a collectible has, and predicates on all entries.
use pallet_rent.Prelude.{
  ℕ, ◌+◌, ◌≤◌, ◌≡◌, ◌≢◌, ◌⊎◌, inl, inr, refl, not, List, [], ◌∷◌, ◌++◌, arith, ◌==◌, if◌then◌else◌,
  retain, Bool-cases, ==_eq,
}

abbrev pub Entry : Type 0
Entry = ℕ × ℕ

-- How many entries are of the collectible `id`.
abbrev pub entries : ℕ → List Entry → ℕ
entries id [] = 0
entries id (e ∷ es) = (if e.0 == id then 1 else 0) + entries id es

abbrev pub All : (Entry → Type 0) → List Entry → Type 0
All P [] = Unit
All P (e ∷ es) = P e × All P es

-- The entries of all collectibles but `id`.
abbrev pub drop_entries : ℕ → List Entry → List Entry
drop_entries id = retain (λ e. not (e.0 == id))

pub entries-append :
    (id : ℕ) (xs ys : List Entry) → entries id (xs ++ ys) ≡ entries id xs + entries id ys
entries-append id [] ys = omega arith
entries-append id (e ∷ xs) ys = omega (arith, entries-append id xs ys)

pub entries-drop_self : (id : ℕ) (es : List Entry) → entries id (drop_entries id es) ≡ 0
entries-drop_self id [] = refl
entries-drop_self id (e ∷ es) = ground (arith, entries-drop_self id es)

pub entries-drop-le : (id j : ℕ) (es : List Entry) → entries j (drop_entries id es) ≤ entries j es
entries-drop-le id j [] = omega arith
entries-drop-le id j (e ∷ es) = ground (arith, entries-drop-le id j es)

module _ (P : Entry → Type 0) where
  pub All-append_one : (es : List Entry) (e : Entry) → All P es → P e → All P (es ++ e ∷ [])
  All-append_one [] e h p = (p, tt)
  All-append_one (x ∷ es) e h p = (h.0, All-append_one es e h.1 p)

  pub All-drop : (id : ℕ) (es : List Entry) → All P es → All P (drop_entries id es)
  All-drop id [] h = tt
  All-drop id (e ∷ es) h = ground (arith, h.0, All-drop id es h.1)

  -- An entry of `id` in the list has the property.
  pub All-entry :
      (id : ℕ) (es : List Entry) → All P es → (entries id es ≡ 0) ⊎ ((a : ℕ) × P (id, a))
  All-entry id [] h = inl refl
  All-entry id ((j, a) ∷ es) h = elim (Bool-cases (j == id)) [
    | inl hit ↦ inr (a, rw (==_eq j id hit) at h.0)
    | inr miss ↦ elim (All-entry id es h.1) [
      | inl e ↦ inl (rw miss (omega (arith, e)))
      | inr w ↦ inr w
    ]
  ]

  -- A change that concerns `id` alone keeps what holds of a list without entries of `id`.
  pub All-others :
      (Q : Entry → Type 0) (id : ℕ) (es : List Entry)
      → entries id es ≡ 0
      → ((j a : ℕ) → j ≢ id → P (j, a) → Q (j, a))
      → All P es
      → All Q es
  All-others Q id [] z f h = tt
  All-others Q id ((j, a) ∷ es) z f h =
      (f j a (ground arith) h.0, All-others Q id es (ground arith) f h.1)

  pub All-map :
      (Q : Entry → Type 0) (es : List Entry)
      → ((j a : ℕ) → P (j, a) → Q (j, a))
      → All P es
      → All Q es
  All-map Q [] f h = tt
  All-map Q ((j, a) ∷ es) f h = (f j a h.0, All-map Q es f h.1)
