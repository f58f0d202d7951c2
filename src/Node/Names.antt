-- ===== src/Node/Names.antt =====
-- Lists of names and what is looked up for each, as the closures of node/src/chain_spec.rs look up keys
-- and accounts.
use pallet_rent.Prelude.{
  ℕ, ◌≡◌, ◌≢◌, refl, inl, inr, Option, none, some, List, [], ◌∷◌, map, arith, length, Option-cases,
}
use pallet_rent.Node.ChainSpec.{all_of}

abbrev pub All : {A : Type 0} → (A → Type 0) → List A → Type 0
All P [] = Unit
All P (x ∷ xs) = P x × All P xs

-- The second list holds what `f` gives for the names of the first, in their order.
abbrev pub Given : {A : Type 0} → (List ℕ → Option A) → List (List ℕ) → List A → Type 0
Given f [] [] = Unit
Given f [] (x ∷ xs) = ⊥
Given f (name ∷ names) [] = ⊥
Given f (name ∷ names) (x ∷ xs) = (f name ≡ some x) × Given f names xs

-- What `f` gives for the names differs pairwise.
abbrev pub Apart : {A : Type 0} → (List ℕ → Option A) → List (List ℕ) → Type 0
Apart f [] = Unit
Apart f (name ∷ names) = All (λ other. f name ≢ f other) names × Apart f names

-- No two entries are the same.
abbrev pub Unique : {A : Type 0} → List A → Type 0
Unique [] = Unit
Unique (x ∷ xs) = All (λ y. x ≢ y) xs × Unique xs

pub all_of-Given :
    {A : Type 0} (f : List ℕ → Option A) (names : List (List ℕ))
    → All (λ name. f name ≢ none) names
    → (xs : List A) × (all_of (map f names) ≡ some xs) × Given f names xs
all_of-Given f [] good = ([], refl, tt)
all_of-Given f (name ∷ names) good =
    let (xs, found, given) = all_of-Given f names good.1 in
    elim (Option-cases (f name)) [
      | inl missing ↦ absurd (good.0 missing)
      | inr (x, known) ↦ (x ∷ xs, rw (known, found) refl, (known, given))
    ]

pub Given-length :
    {A : Type 0} (f : List ℕ → Option A) (names : List (List ℕ)) (xs : List A)
    → Given f names xs
    → length xs ≡ length names
Given-length f [] [] h = refl
Given-length f [] (x ∷ xs) h = absurd h
Given-length f (name ∷ names) [] h = absurd h
Given-length f (name ∷ names) (x ∷ xs) h = omega (arith, Given-length f names xs h.1)

Given-All :
    {A : Type 0} (f : List ℕ → Option A) (name : List ℕ) (x : A) (names : List (List ℕ))
    (xs : List A)
    → f name ≡ some x
    → Given f names xs
    → All (λ other. f name ≢ f other) names
    → All (λ y. x ≢ y) xs
Given-All f name x [] [] known h differ = tt
Given-All f name x [] (y ∷ ys) known h differ = absurd h
Given-All f name x (other ∷ names) [] known h differ = absurd h
Given-All f name x (other ∷ names) (y ∷ ys) known h differ =
    (λ e. differ.0 (cc (known, h.0, e)), Given-All f name x names ys known h.1 differ.1)

-- Where what is given differs pairwise, it has no duplicates.
pub Given-Unique :
    {A : Type 0} (f : List ℕ → Option A) (names : List (List ℕ)) (xs : List A)
    → Given f names xs
    → Apart f names
    → Unique xs
Given-Unique f [] [] h differ = tt
Given-Unique f [] (x ∷ xs) h differ = absurd h
Given-Unique f (name ∷ names) [] h differ = absurd h
Given-Unique f (name ∷ names) (x ∷ xs) h differ =
    (Given-All f name x names xs h.0 h.1 differ.0, Given-Unique f names xs h.1 differ.1)
