-- ===== src/Prelude/Lists.antt =====
-- Lists over the native numbers: length, counting, `retain`.
use Prim.Native.Nat.{ℕ, suc, ◌+◌, ◌≤◌}
use mathlib.Core.Path.{◌≡◌, refl}
use mathlib.Core.Logic.{◌≢◌}
use mathlib.Core.Bool.{Bool, not}
use mathlib.Core.List.{List, [], ◌∷◌, ◌++◌}
use native.Mathlib.Omega.{arith}
use pallet_rent.Prelude.Tests.{◌==◌, if◌then◌else◌}

module _ {ℓ} {A : Type ℓ} where
  abbrev pub length : List A → ℕ
  length [] = 0
  length (x ∷ xs) = suc (length xs)

  pub length-append : (xs ys : List A) → length (xs ++ ys) ≡ length xs + length ys
  length-append [] ys = omega arith
  length-append (x ∷ xs) ys = omega (arith, length-append xs ys)

  -- `Vec::retain`
  abbrev pub retain : (A → Bool) → List A → List A
  retain p [] = []
  retain p (x ∷ xs) = if p x then x ∷ retain p xs else retain p xs

  pub length-retain-le : (p : A → Bool) (xs : List A) → length (retain p xs) ≤ length xs
  length-retain-le p [] = omega arith
  length-retain-le p (x ∷ xs) = ground (arith, length-retain-le p xs)

-- How often a number occurs.
abbrev pub count : ℕ → List ℕ → ℕ
count x [] = 0
count x (y ∷ ys) = (if y == x then 1 else 0) + count x ys

pub count-append : (x : ℕ) (xs ys : List ℕ) → count x (xs ++ ys) ≡ count x xs + count x ys
count-append x [] ys = omega arith
count-append x (y ∷ xs) ys = omega (arith, count-append x xs ys)

-- `retain(|&y| y != x)`
abbrev pub without : ℕ → List ℕ → List ℕ
without x = retain (λ y. not (y == x))

pub count-without_self : (x : ℕ) (xs : List ℕ) → count x (without x xs) ≡ 0
count-without_self x [] = refl
count-without_self x (y ∷ xs) = ground (arith, count-without_self x xs)

pub count-without_ne : (x z : ℕ) (xs : List ℕ) → x ≢ z → count z (without x xs) ≡ count z xs
count-without_ne x z [] h = refl
count-without_ne x z (y ∷ xs) h = ground (arith, count-without_ne x z xs h)

pub length-without-le : (x : ℕ) (xs : List ℕ) → length (without x xs) ≤ length xs
length-without-le x xs = length-retain-le _ xs

-- What does not occur is not removed.
pub without_absent : (x : ℕ) (xs : List ℕ) → count x xs ≡ 0 → without x xs ≡ xs
without_absent x [] h = refl
without_absent x (y ∷ xs) h = ground (arith, h, without_absent x xs)

-- What was appended is removed again.
pub without-append : (x : ℕ) (xs : List ℕ) → count x xs ≡ 0 → without x (xs ++ x ∷ []) ≡ xs
without-append x [] h = ground arith
without-append x (y ∷ xs) h = ground (arith, h, without-append x xs)
