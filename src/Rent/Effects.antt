-- ===== src/Rent/Effects.antt =====
-- What a function of the pallet does: it reads and writes the storage, and it returns a value,
-- returns an error, panics, or stays in a loop for good. The storage comes back in every case,
-- since what was written before an error stays written until the caller rolls it back.
use pallet_rent.Prelude.{ℕ, Bool, true, false, Option, none, some, [], ◌∷◌, ◌++◌, if◌then◌else◌}
use pallet_rent.Rent.Types.{Error, Event, State}

-- `DispatchError`: a bad origin, an error of this pallet, or one of the currency by its code.
pub data DispatchError : Type 0 where
  bad_origin : DispatchError
  module_error : Error → DispatchError
  currency_error : ℕ → DispatchError

pub data Outcome (A : Type 0) : Type 0 where
  ok : A → Outcome A
  err : DispatchError → Outcome A
  panic : Outcome A
  endless : Outcome A

-- `.is_ok()`, which is `.ok().is_some()`.
abbrev pub is_ok : {A : Type 0} → Outcome A → Bool
is_ok (ok _) = true
is_ok _ = false

abbrev pub M : Type 0 → Type 0 → Type 0
M L A = State L → Outcome A × State L

module _ {L A : Type 0} where
  abbrev pub pure : A → M L A
  pure a s = (ok a, s)

  abbrev pub fail : Error → M L A
  fail e s = (err (module_error e), s)

  -- A result that was computed without the storage.
  abbrev pub lift : Outcome A → M L A
  lift o s = (o, s)

  -- `Option::unwrap`
  abbrev pub unwrap : Option A → M L A
  unwrap none s = (panic, s)
  unwrap (some a) s = (ok a, s)

  -- `Option::ok_or(e)?`
  abbrev pub ok_or : Option A → Error → M L A
  ok_or none e = fail e
  ok_or (some a) e = pure a

  -- `Result::unwrap`: an error becomes a panic.
  abbrev pub unwrap_result : Outcome A × State L → Outcome A × State L
  unwrap_result (err e, s) = (panic, s)
  unwrap_result (ok a, s) = (ok a, s)
  unwrap_result (panic, s) = (panic, s)
  unwrap_result (endless, s) = (endless, s)

-- `if let Err(_) = …`: whether the call succeeded.
abbrev pub attempt : {L A : Type 0} → Outcome A × State L → Outcome Bool × State L
attempt (ok _, s) = (ok true, s)
attempt (err _, s) = (ok false, s)
attempt (panic, s) = (panic, s)
attempt (endless, s) = (endless, s)

infixl 5 ◌>>=◌ ◌>>◌
-- The continuation of a finished step.
abbrev pub continue : {L A B : Type 0} → (A → M L B) → Outcome A × State L → Outcome B × State L
continue f (ok a, s) = f a s
continue f (err e, s) = (err e, s)
continue f (panic, s) = (panic, s)
continue f (endless, s) = (endless, s)

abbrev pub ◌>>=◌ : {L A B : Type 0} → M L A → (A → M L B) → M L B
◌>>=◌ m f s = continue f (m s)

abbrev pub ◌>>◌ : {L B : Type 0} → M L (Unit {0}) → M L B → M L B
m >> k = m >>= λ _. k

module _ {L : Type 0} where
  -- `ensure!(b, e)`
  abbrev pub ensure : Bool → Error → M L (Unit {0})
  ensure b e = if b then pure tt else fail e

  abbrev pub gets : {A : Type 0} → (State L → A) → M L A
  gets f s = (ok (f s), s)

  abbrev pub modify : (State L → State L) → M L (Unit {0})
  modify f s = (ok tt, f s)

  -- `Self::deposit_event(e)`
  abbrev pub deposit_event : Event → M L (Unit {0})
  deposit_event e = modify λ s. record s { events = s.events ++ e ∷ [] }

  abbrev pub when : Bool → M L (Unit {0}) → M L (Unit {0})
  when b m = if b then m else pure tt
