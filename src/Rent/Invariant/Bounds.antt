-- ===== src/Rent/Invariant/Bounds.antt =====
-- The bounded lists of pallets/rent/src/lib.rs, and writes that keep them within their bounds.
use pallet_rent.Prelude.{
  ℕ, ◌≤◌, ◌≡◌, Option, some, List, [], ◌∷◌, ◌++◌, arith, get_or, length, length-append, without,
  length-without-le, update,
}
use pallet_rent.Rent.Types.{Config, State}
use pallet_rent.Rent.Effects.{ok}
use pallet_rent.Rent.Helpers.{find_block, rounds}
use pallet_rent.Rent.Helpers.Results.{find_block-room}
use pallet_rent.Rent.Internal.{try_push}

-- The lists of a map are within a bound.
abbrev pub AllWithin : ℕ → (ℕ → Option (List ℕ)) → Type 0
AllWithin n f = (a : ℕ) → length (get_or (f a) []) ≤ n

abbrev pub AllShort : ℕ → (ℕ → List (ℕ × ℕ)) → Type 0
AllShort n f = (b : ℕ) → length (f b) ≤ n

pub update-AllWithin :
    (n : ℕ) (f : ℕ → Option (List ℕ)) (a : ℕ) (xs : List ℕ)
    → AllWithin n f
    → length xs ≤ n
    → AllWithin n (update f a (some xs))
update-AllWithin n f a xs all short x = ground (arith, all x)

pub update-AllShort :
    (n : ℕ) (f : ℕ → List (ℕ × ℕ)) (b : ℕ) (es : List (ℕ × ℕ))
    → AllShort n f
    → length es ≤ n
    → AllShort n (update f b es)
update-AllShort n f b es all short x = ground (arith, all x)

pub without-AllWithin :
    (n : ℕ) (f : ℕ → Option (List ℕ)) (a id : ℕ)
    → AllWithin n f
    → AllWithin n (update f a (some (without id (get_or (f a) []))))
without-AllWithin n f a id all =
    update-AllWithin n f a (without id (get_or (f a) [])) all
      (omega (arith, length-without-le id (get_or (f a) []), all a))

module _ {L : Type 0} (cfg : Config L) where
  pub record Bounded (s : State L) : Type 0 where
    pub lessors : AllWithin cfg.maximum_owned s.lessor_collectibles
    pub equips : AllWithin cfg.maximum_owned s.account_equips
    pub rentables : length s.rentable_collectibles ≤ cfg.maximum_owned
    pub pending : AllShort cfg.maximum_rentables_per_block s.pending_rentals

  pub try_push-le :
      (ids : List ℕ) (id : ℕ) (new : List ℕ)
      → try_push cfg ids id ≡ some new
      → length new ≤ cfg.maximum_owned
  try_push-le ids id new e = ground (arith, length-append ids (id ∷ []))

  -- A rental is appended to a block with room.
  pub append-AllShort :
      (ps : ℕ → List (ℕ × ℕ)) (now first b id a : ℕ)
      → AllShort cfg.maximum_rentables_per_block ps
      → find_block cfg rounds now ps first ≡ ok b
      → AllShort cfg.maximum_rentables_per_block (update ps b (ps b ++ (id, a) ∷ []))
  append-AllShort ps now first b id a all found =
      update-AllShort cfg.maximum_rentables_per_block ps b (ps b ++ (id, a) ∷ []) all (
        omega (
          arith,
          length-append (ps b) ((id, a) ∷ []),
          find_block-room cfg rounds now ps first b found,
        ))
