-- ===== src/Prelude/Maps.antt =====
-- Storage maps as functions from their keys, and the write of one key.
use Prim.Native.Nat.{ℕ}
use mathlib.Core.Path.{◌≡◌, fun_ext}
use mathlib.Core.Logic.{◌≢◌}
use native.Mathlib.Omega.{arith}
use pallet_rent.Prelude.Tests.{◌==◌, if◌then◌else◌}

-- The map `f` with `v` at the key `k`.
abbrev pub update {ℓ} : {V : Type ℓ} → (ℕ → V) → ℕ → V → ℕ → V
update f k v j = if k == j then v else f j

-- The map `f` of two keys with `v` at `k` and `l`.
abbrev pub update₂ {ℓ} : {V : Type ℓ} → (ℕ → ℕ → V) → ℕ → ℕ → V → ℕ → ℕ → V
update₂ f k l v = update f k (update (f k) l v)

pub update_self {ℓ} : {V : Type ℓ} (f : ℕ → V) (k : ℕ) (v : V) → update f k v k ≡ v
update_self f k v = ground arith

pub update_ne {ℓ} : {V : Type ℓ} (f : ℕ → V) (k j : ℕ) (v : V) → k ≢ j → update f k v j ≡ f j
update_ne f k j v h = ground arith

-- A key that is written twice has the later value.
pub update-update {ℓ} :
    {V : Type ℓ} (f : ℕ → V) (k l : ℕ) (v w : V) → k ≡ l → update (update f k v) l w ≡ update f l w
update-update f k l v w h = fun_ext λ j. ground arith

-- Two keys are written in either order.
pub update-swap {ℓ} :
    {V : Type ℓ} (f : ℕ → V) (k l : ℕ) (v w : V)
    → k ≢ l
    → update (update f k v) l w ≡ update (update f l w) k v
update-swap f k l v w h = fun_ext λ j. ground arith

-- Writing what a key has changes nothing.
pub update_same {ℓ} : {V : Type ℓ} (f : ℕ → V) (k : ℕ) → update f k (f k) ≡ f
update_same f k = fun_ext λ j. ground arith
