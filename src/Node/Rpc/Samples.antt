-- ===== src/Node/Rpc/Samples.antt =====
-- The methods of node/src/rpc.rs with concrete modules.
use pallet_rent.Prelude.{
  ℕ, ◌≡◌, refl, Bool, true, false, ◌&&◌, ◌||◌, if◌then◌else◌, arith, ◌==◌, ==_eq, Bool-cases, inl,
  inr,
}
use pallet_rent.Node.Rpc.{merged, failed, Library, Laws, create_full, create_full-serves}
use mathlib.Core.List.{List, [], ◌∷◌, ◌++◌}

abbrev has : List ℕ → ℕ → Bool
has [] name = false
has (x ∷ xs) name = (x == name) || has xs name

abbrev clashes : List ℕ → List ℕ → Bool
clashes [] ys = false
clashes (x ∷ xs) ys = has ys x || clashes xs ys

-- A module is the list of its methods; the first two are of `System`, the others of `TransactionPayment`.
abbrev library : Library ℕ ℕ (List ℕ) ℕ
library = record {
  new = [];
  merge = λ m o. if clashes m o then failed 1 else merged (m ++ o);
  system = λ client pool deny_unsafe. 1 ∷ 2 ∷ [];
  transaction_payment = λ client. 3 ∷ 4 ∷ [];
  serves = has;
}

has-append : (xs ys : List ℕ) (name : ℕ) → has (xs ++ ys) name ≡ has xs name || has ys name
has-append [] ys name = refl
has-append (x ∷ xs) ys name = ground (arith, has-append xs ys name)

apart : (xs ys : List ℕ) → ((name : ℕ) → has xs name && has ys name ≡ false) → clashes xs ys ≡ false
apart [] ys none_shared = refl
apart (x ∷ xs) ys none_shared =
    let rest = apart xs ys (λ name. ground (arith, none_shared name)) in
    ground (arith, none_shared x, rest)

shared :
    (xs ys : List ℕ) (name : ℕ) → has xs name ≡ true → has ys name ≡ true → clashes xs ys ≡ true
shared [] ys name here there = cc
shared (x ∷ xs) ys name here there = elim (Bool-cases (x == name)) [
  | inl same ↦ let first : has ys x ≡ true = rw (==_eq x name same) there in rw first refl
  | inr other ↦ let later = shared xs ys name (rw other at here) there in ground (arith, later)
]

library-Laws : Laws library
library-Laws = record {
  empty = λ name. refl;
  added = λ m o none_shared. (m ++ o, rw (apart m o none_shared) refl, has-append m o);
  present = λ m o name here there. (1, rw (shared m o name here there) refl);
}

create_full-serves_example :
    (u : List ℕ) × (create_full library (record { client = 0; pool = 0; deny_unsafe = true })
      ≡ merged u)
    × ((name : ℕ) → has u name ≡ has (1 ∷ 2 ∷ []) name || has (3 ∷ 4 ∷ []) name)
create_full-serves_example =
    create_full-serves library library-Laws (record { client = 0; pool = 0; deny_unsafe = true })
      (λ name. ground arith)
