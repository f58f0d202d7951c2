-- ===== src/Rent/Invariant/Holdings.antt =====
-- Who holds what in the storage of pallets/rent/src/lib.rs: `LessorCollectibles`,
-- `RentableCollectibles` and `AccountEquips` against `Collectibles`.
use pallet_rent.Prelude.{
  ℕ, ◌<◌, ◌≡◌, ◌≢◌, inl, inr, Bool, true, false, ◌||◌, Option, none, some, List, [], ◌∷◌, ◌++◌,
  arith, ◌==◌, if◌then◌else◌, get_or, eq_option, update, Bool-cases, ==_eq, count, without,
  count-append, count-without_self, count-without_ne,
}
use pallet_rent.Rent.Types.{Collectible}

-- How often an account's list should name a collectible: once if the account is its lessor.
abbrev pub owns : ℕ → Option Collectible → ℕ
owns a none = 0
owns a (some c) = if c.lessor == a then 1 else 0

-- The accounts that may equip a collectible: its lessor and its lessee.
abbrev pub entitled : ℕ → Option Collectible → Bool
entitled a none = false
entitled a (some c) = c.lessor == a || eq_option c.lessee (some a)

abbrev pub offered : Option Collectible → Bool
offered none = false
offered (some c) = c.rentable

-- A collectible is stored under its id, and the list of an account names exactly the collectibles
-- of which it is the lessor, each once.
pub record IsOwned (cs : ℕ → Option Collectible) (os : ℕ → Option (List ℕ)) : Type 0 where
  pub keyed : (id : ℕ) (c : Collectible) → cs id ≡ some c → c.collectible_id ≡ id
  pub owned : (a id : ℕ) → count id (get_or (os a) []) ≡ owns a (cs id)

-- A collectible that is marked as rentable is in the list of rentable collectibles.
pub record IsListed (cs : ℕ → Option Collectible) (rs : List ℕ) : Type 0 where
  pub listed : (id : ℕ) → offered (cs id) ≡ true → 0 < count id rs

-- Only its lessor and its lessee have a collectible equipped.
pub record IsEntitled (cs : ℕ → Option Collectible) (es : ℕ → Option (List ℕ)) : Type 0 where
  pub allowed : (a id : ℕ) → 0 < count id (get_or (es a) []) → entitled a (cs id) ≡ true

module _ {cs : ℕ → Option Collectible} {os : ℕ → Option (List ℕ)} (inv : IsOwned cs os) where
  -- A collectible changes, and its id and its lessor stay.
  pub put-IsOwned :
      (id : ℕ) (c d : Collectible)
      → cs id ≡ some c
      → d.collectible_id ≡ c.collectible_id
      → d.lessor ≡ c.lessor
      → IsOwned (update cs id (some d)) os
  put-IsOwned id c d e same_id same_lessor = record {
    keyed = λ j x h. elim (Bool-cases (id == j)) [
      | inl hit ↦ ground (arith, inv.keyed id c e)
      | inr miss ↦ inv.keyed j x (ground arith)
    ];
    owned = λ a j. ground (arith, inv.owned a j);
  }

  pub mint-IsOwned :
      (id a : ℕ) (d : Collectible)
      → cs id ≡ none
      → d.collectible_id ≡ id
      → d.lessor ≡ a
      → IsOwned (update cs id (some d)) (update os a (some (get_or (os a) [] ++ id ∷ [])))
  mint-IsOwned id a d e keyed lessor = record {
    keyed = λ j x h. elim (Bool-cases (id == j)) [
      | inl hit ↦ ground arith
      | inr miss ↦ inv.keyed j x (ground arith)
    ];
    owned = λ x j.
        ground (arith, inv.owned x j, inv.owned a j, count-append j (get_or (os a) []) (id ∷ []));
  }

  pub burn-IsOwned :
      (id : ℕ) (c : Collectible)
      → cs id ≡ some c
      → IsOwned
          (update cs id none)
          (update os c.lessor (some (without id (get_or (os c.lessor) []))))
  burn-IsOwned id c e = record {
    keyed = λ j x h. elim (Bool-cases (id == j)) [
      | inl hit ↦ ground arith
      | inr miss ↦ inv.keyed j x (ground arith)
    ];
    owned = λ x j. ground (
      arith,
      inv.owned x j,
      inv.owned c.lessor j,
      count-without_self id (get_or (os c.lessor) []),
      count-without_ne id j (get_or (os c.lessor) []),
    );
  }

module _ {cs : ℕ → Option Collectible} {es : ℕ → Option (List ℕ)} (inv : IsEntitled cs es) where
  -- A collectible changes, and everybody who was entitled still is.
  pub put-IsEntitled :
      (id : ℕ) (o : Option Collectible)
      → ((a : ℕ) → entitled a (cs id) ≡ true → entitled a o ≡ true)
      → IsEntitled (update cs id o) es
  put-IsEntitled id o wider = record {
    allowed = λ a j h. elim (Bool-cases (id == j)) [
      | inl hit ↦ rw hit (wider a (rw (==_eq id j hit) (inv.allowed a j h)))
      | inr miss ↦ rw miss (inv.allowed a j h)
    ];
  }

  -- An account that is entitled equips a collectible.
  pub equip-IsEntitled :
      (a id : ℕ)
      → entitled a (cs id) ≡ true
      → IsEntitled cs (update es a (some (get_or (es a) [] ++ id ∷ [])))
  equip-IsEntitled a id ok = record {
    allowed = λ x j h.
        ground
          (arith, inv.allowed x j, inv.allowed a j, count-append j (get_or (es a) []) (id ∷ []));
  }

  pub unequip-IsEntitled :
      (a id : ℕ) → IsEntitled cs (update es a (some (without id (get_or (es a) []))))
  unequip-IsEntitled a id = record {
    allowed = λ x j h. ground (
      arith,
      inv.allowed x j,
      inv.allowed a j,
      count-without_self id (get_or (es a) []),
      count-without_ne id j (get_or (es a) []),
    );
  }

  -- A collectible changes, and an account that loses it has it unequipped.
  pub lose-IsEntitled :
      (a id : ℕ) (o : Option Collectible)
      → ((x : ℕ) → x ≢ a → entitled x (cs id) ≡ true → entitled x o ≡ true)
      → IsEntitled (update cs id o) (update es a (some (without id (get_or (es a) []))))
  lose-IsEntitled a id o wider = record {
    allowed = λ x j h. elim (Bool-cases (id == j)) [
      | inl hit ↦ elim (Bool-cases (a == x)) [
        | inl same ↦ absurd (ground (arith, h, count-without_self id (get_or (es a) [])))
        | inr other ↦
            rw hit (wider x (ground arith) (rw (==_eq id j hit) (inv.allowed x j (ground arith))))
      ]
      | inr miss ↦ rw miss ((unequip-IsEntitled a id).allowed x j h)
    ];
  }

module _ {cs : ℕ → Option Collectible} {rs : List ℕ} (inv : IsListed cs rs) where
  -- A collectible changes, and it is not offered unless it was.
  pub put-IsListed :
      (id : ℕ) (o : Option Collectible)
      → (offered o ≡ true → offered (cs id) ≡ true)
      → IsListed (update cs id o) rs
  put-IsListed id o kept = record { listed = λ j h. ground (arith, inv.listed j, kept) }

  pub offer-IsListed : (id : ℕ) (o : Option Collectible) → IsListed (update cs id o) (rs ++ id ∷ [])
  offer-IsListed id o = record {
    listed = λ j h. ground (arith, inv.listed j, count-append j rs (id ∷ []));
  }

  pub withdraw-IsListed :
      (id : ℕ) (o : Option Collectible)
      → offered o ≡ false
      → IsListed (update cs id o) (without id rs)
  withdraw-IsListed id o gone = record {
    listed = λ j h. ground (arith, inv.listed j, count-without_ne id j rs);
  }
