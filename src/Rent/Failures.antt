-- ===== src/Rent/Failures.antt =====
-- What a failing function of pallets/rent/src/lib.rs tells and leaves: rules for the errors along a
-- sequence of steps.
use pallet_rent.Prelude.{Bool, true, false, ◌≡◌, refl, arith, Option, none, some}
use pallet_rent.Rent.Types.{Error, State}
use pallet_rent.Rent.Effects.{
  DispatchError, module_error, Outcome, ok, err, panic, endless, M, continue, ◌>>=◌, ◌>>◌, unwrap,
  ok_or, ensure, lift, when, unwrap_result,
}

-- What holds of the error and of the storage if the function returns an error.
abbrev pub Fails :
    {L A : Type 0} → (DispatchError → State L → Type 0) → Outcome A × State L → Type 0
Fails Q (err x, t) = Q x t
Fails Q (ok a, t) = Unit
Fails Q (panic, t) = Unit
Fails Q (endless, t) = Unit

pub Fails-map :
    {L A : Type 0} (P Q : DispatchError → State L → Type 0) (r : Outcome A × State L)
    → ((x : DispatchError) (t : State L) → P x t → Q x t)
    → Fails P r
    → Fails Q r
Fails-map P Q (err x, t) f h = f x t h
Fails-map P Q (ok a, t) f h = tt
Fails-map P Q (panic, t) f h = tt
Fails-map P Q (endless, t) f h = tt

module _ {L : Type 0} (Q : DispatchError → State L → Type 0) where
  pub Fails-continue :
      {A B : Type 0} (r : Outcome A × State L) (f : A → M L B)
      → Fails Q r
      → ((a : A) (t : State L) → r ≡ (ok a, t) → Fails Q (f a t))
      → Fails Q (continue f r)
  Fails-continue (ok a, t) f h k = k a t refl
  Fails-continue (err x, t) f h k = h
  Fails-continue (panic, t) f h k = tt
  Fails-continue (endless, t) f h k = tt

  pub Fails-ok_or :
      {A B : Type 0} (o : Option A) (x : Error) (f : A → M L B) (s : State L)
      → (o ≡ none → Q (module_error x) s)
      → ((a : A) → o ≡ some a → Fails Q (f a s))
      → Fails Q ((ok_or o x >>= f) s)
  Fails-ok_or none x f s h k = h refl
  Fails-ok_or (some a) x f s h k = k a refl

  pub Fails-unwrap :
      {A B : Type 0} (o : Option A) (f : A → M L B) (s : State L)
      → ((a : A) → o ≡ some a → Fails Q (f a s))
      → Fails Q ((unwrap o >>= f) s)
  Fails-unwrap none f s k = tt
  Fails-unwrap (some a) f s k = k a refl

  pub Fails-ensure :
      {B : Type 0} (b : Bool) (x : Error) (m : M L B) (s : State L)
      → (b ≡ false → Q (module_error x) s)
      → (b ≡ true → Fails Q (m s))
      → Fails Q ((ensure b x >> m) s)
  Fails-ensure true x m s h k = k refl
  Fails-ensure false x m s h k = h refl

  pub Fails-lift :
      {A B : Type 0} (o : Outcome A) (f : A → M L B) (s : State L)
      → ((x : DispatchError) → o ≡ err x → Q x s)
      → ((a : A) → o ≡ ok a → Fails Q (f a s))
      → Fails Q ((lift o >>= f) s)
  Fails-lift (ok a) f s h k = k a refl
  Fails-lift (err x) f s h k = h x refl
  Fails-lift panic f s h k = tt
  Fails-lift endless f s h k = tt

  pub Fails-when-lift :
      {B : Type 0} (b : Bool) (o : Outcome (Unit {0})) (m : M L B) (s : State L)
      → ((x : DispatchError) → b ≡ true → o ≡ err x → Q x s)
      → Fails Q (m s)
      → Fails Q ((when b (lift o) >> m) s)
  Fails-when-lift true (ok u) m s h k = k
  Fails-when-lift true (err x) m s h k = h x refl refl
  Fails-when-lift true panic m s h k = tt
  Fails-when-lift true endless m s h k = tt
  Fails-when-lift false o m s h k = k

  -- `Result::unwrap` leaves no error.
  pub Fails-unwrap_result : {A : Type 0} (r : Outcome A × State L) → Fails Q (unwrap_result r)
  Fails-unwrap_result (ok a, t) = tt
  Fails-unwrap_result (err x, t) = tt
  Fails-unwrap_result (panic, t) = tt
  Fails-unwrap_result (endless, t) = tt

  pub Fails-elim :
      {A : Type 0} (r : Outcome A × State L) (x : DispatchError) (t : State L)
      → Fails Q r
      → r ≡ (err x, t)
      → Q x t
  Fails-elim (err y, s) x t h e = ground (arith, h, e)
  Fails-elim (ok a, s) x t h e = cc
  Fails-elim (panic, s) x t h e = cc
  Fails-elim (endless, s) x t h e = cc
