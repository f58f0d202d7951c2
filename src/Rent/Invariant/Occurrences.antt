-- ===== src/Rent/Invariant/Occurrences.antt =====
-- Where the entry of a rental stands among pending rentals, the values of the storage map
-- `PendingRentals` of pallets/rent/src/lib.rs.
use pallet_rent.Prelude.{
  ℕ, ◌<◌, ◌≡◌, ◌≢◌, ◌⊎◌, inl, inr, refl, List, [], ◌∷◌, ◌++◌, arith, ◌==◌, Bool-cases,
}
use pallet_rent.Rent.Invariant.Entries.{Entry, entries, drop_entries}

-- The rental of the collectible `id` by `a` is among the entries.
abbrev pub Occurs : ℕ → ℕ → List Entry → Type 0
Occurs id a [] = ⊥
Occurs id a (e ∷ es) = ((e.0 ≡ id) × (e.1 ≡ a)) ⊎ Occurs id a es

pub entries-Occurs : (id a : ℕ) (es : List Entry) → Occurs id a es → 0 < entries id es
entries-Occurs id a [] o = absurd o
entries-Occurs id a (e ∷ es) (inl h) = ground arith
entries-Occurs id a (e ∷ es) (inr o) = omega (arith, entries-Occurs id a es o)

pub Occurs-append :
    (id a : ℕ) (es : List Entry) (e : Entry) → Occurs id a es → Occurs id a (es ++ e ∷ [])
Occurs-append id a [] e o = absurd o
Occurs-append id a (x ∷ es) e (inl h) = inl h
Occurs-append id a (x ∷ es) e (inr o) = inr (Occurs-append id a es e o)

pub Occurs-append_self : (id a : ℕ) (es : List Entry) → Occurs id a (es ++ (id, a) ∷ [])
Occurs-append_self id a [] = inl (refl, refl)
Occurs-append_self id a (e ∷ es) = inr (Occurs-append_self id a es)

-- Another rental than that of the first entry is among the others.
pub Occurs-tail :
    (id a j x : ℕ) (es : List Entry)
    → (a ≢ x) ⊎ (id ≢ j)
    → Occurs j x ((id, a) ∷ es)
    → Occurs j x es
Occurs-tail id a j x es (inl other) (inl h) = absurd (other h.1)
Occurs-tail id a j x es (inr other) (inl h) = absurd (other h.0)
Occurs-tail id a j x es other (inr o) = o

-- The entries of other collectibles stay where those of one are dropped.
pub Occurs-drop :
    (id j x : ℕ) (es : List Entry) → id ≢ j → Occurs j x es → Occurs j x (drop_entries id es)
Occurs-drop id j x [] other o = absurd o
Occurs-drop id j x (e ∷ es) other o = elim (Bool-cases (e.0 == id)) [
  | inl hit ↦ elim o [
    | inl h ↦ absurd (ground (arith, hit, h, other))
    | inr later ↦ ground (arith, hit, Occurs-drop id j x es other later)
  ]
  | inr miss ↦
      rw miss (elim o [ inl h ↦ inl h | inr later ↦ inr (Occurs-drop id j x es other later) ])
]
