-- ===== src/Rent/Rules.antt =====
-- How the proofs about pallets/rent/src/lib.rs speak of a function's outcome.
use pallet_rent.Prelude.{
  ℕ, if◌then◌else◌, Bool, true, false, ◌≡◌, refl, ap, ◌⊎◌, inl, inr, Option, none, some,
}
use pallet_rent.Rent.Types.{Error, Transfer, moved, refused, State}
use pallet_rent.Rent.Effects.{
  DispatchError, Outcome, ok, err, panic, endless, M, continue, ◌>>=◌, ◌>>◌, unwrap, ok_or, ensure,
  lift, unwrap_result, when,
}

-- What holds of the storage if the function succeeds.
abbrev pub Post : {L A : Type 0} → (State L → Type 0) → Outcome A × State L → Type 0
Post P (ok _, s) = P s
Post P (err _, s) = Unit
Post P (panic, s) = Unit
Post P (endless, s) = Unit

pub Outcome-cases :
    {A : Type 0} (o : Outcome A)
    → ((a : A) × (o ≡ ok a)) ⊎ (((e : DispatchError) × (o ≡ err e)) ⊎ ((o ≡ panic) ⊎ (o ≡ endless)))
Outcome-cases (ok a) = inl (a, refl)
Outcome-cases (err e) = inr (inl (e, refl))
Outcome-cases panic = inr (inr (inl refl))
Outcome-cases endless = inr (inr (inr refl))

-- To prove something of a sequence, prove it of what follows the first step's success.
pub Post-continue :
    {L A B : Type 0} (P : State L → Type 0) (r : Outcome A × State L) (f : A → M L B)
    → ((a : A) (t : State L) → r ≡ (ok a, t) → Post P (f a t))
    → Post P (continue f r)
Post-continue P (ok a, t) f h = h a t refl
Post-continue P (err e, t) f h = tt
Post-continue P (panic, t) f h = tt
Post-continue P (endless, t) f h = tt

-- What holds of the storage if the function succeeds, where it may also loop for good; it returns
-- no error and it does not panic.
abbrev pub Runs : {L A : Type 0} → (State L → Type 0) → Outcome A × State L → Type 0
Runs P (ok _, s) = P s
Runs P (err _, s) = ⊥
Runs P (panic, s) = ⊥
Runs P (endless, s) = Unit

pub Runs-continue :
    {L A B : Type 0} (Q P : State L → Type 0) (r : Outcome A × State L) (f : A → M L B)
    → Runs Q r
    → ((a : A) (t : State L) → Q t → Runs P (f a t))
    → Runs P (continue f r)
Runs-continue Q P (ok a, t) f q h = h a t q
Runs-continue Q P (err e, t) f q h = q
Runs-continue Q P (panic, t) f q h = q
Runs-continue Q P (endless, t) f q h = tt

pub Transfer-cases :
    {L : Type 0} (r : Transfer L) → ((l : L) × (r ≡ moved l)) ⊎ ((code : ℕ) × (r ≡ refused code))
Transfer-cases (moved l) = inl (l, refl)
Transfer-cases (refused code) = inr (code, refl)

pub Post-unwrap :
    {L A B : Type 0} (P : State L → Type 0) (o : Option A) (f : A → M L B) (s : State L)
    → ((a : A) → o ≡ some a → Post P (f a s))
    → Post P ((unwrap o >>= f) s)
Post-unwrap P none f s h = tt
Post-unwrap P (some a) f s h = h a refl

pub unwrap_result-ok :
    {L A : Type 0} (r : Outcome A × State L) (a : A) (t : State L)
    → unwrap_result r ≡ (ok a, t)
    → r ≡ (ok a, t)
unwrap_result-ok (ok x, s) a t e = e
unwrap_result-ok (err x, s) a t e = cc
unwrap_result-ok (panic, s) a t e = cc
unwrap_result-ok (endless, s) a t e = cc

-- The storage that a function leaves.
abbrev pub state_of : {L A : Type 0} → Outcome A × State L → State L
state_of (o, s) = s

pub Post-elim :
    {L A : Type 0} (P : State L → Type 0) (r : Outcome A × State L) (a : A) (t : State L)
    → Post P r
    → r ≡ (ok a, t)
    → P t
Post-elim P (ok x, s) a t h e = rw (ap state_of e) at h
Post-elim P (err x, s) a t h e = cc
Post-elim P (panic, s) a t h e = cc
Post-elim P (endless, s) a t h e = cc

pub Post-intro :
    {L A : Type 0} (P : State L → Type 0) (r : Outcome A × State L)
    → ((a : A) (t : State L) → r ≡ (ok a, t) → P t)
    → Post P r
Post-intro P (ok a, t) h = h a t refl
Post-intro P (err e, t) h = tt
Post-intro P (panic, t) h = tt
Post-intro P (endless, t) h = tt

pub Post-ok_or :
    {L A B : Type 0} (P : State L → Type 0) (o : Option A) (x : Error) (f : A → M L B) (s : State L)
    → ((a : A) → o ≡ some a → Post P (f a s))
    → Post P ((ok_or o x >>= f) s)
Post-ok_or P none x f s h = tt
Post-ok_or P (some a) x f s h = h a refl

pub Post-ensure :
    {L B : Type 0} (P : State L → Type 0) (b : Bool) (x : Error) (m : M L B) (s : State L)
    → (b ≡ true → Post P (m s))
    → Post P ((ensure b x >> m) s)
Post-ensure P true x m s h = h refl
Post-ensure P false x m s h = tt

pub Post-lift :
    {L A B : Type 0} (P : State L → Type 0) (o : Outcome A) (f : A → M L B) (s : State L)
    → ((a : A) → o ≡ ok a → Post P (f a s))
    → Post P ((lift o >>= f) s)
Post-lift P (ok a) f s h = h a refl
Post-lift P (err x) f s h = tt
Post-lift P panic f s h = tt
Post-lift P endless f s h = tt

pub Post-map :
    {L A : Type 0} (P Q : State L → Type 0) (r : Outcome A × State L)
    → ((t : State L) → P t → Q t)
    → Post P r
    → Post Q r
Post-map P Q (ok a, t) f h = f t h
Post-map P Q (err e, t) f h = tt
Post-map P Q (panic, t) f h = tt
Post-map P Q (endless, t) f h = tt

pub Runs-unwrap :
    {L A B : Type 0} (P : State L → Type 0) (o : Option A) (f : A → M L B) (s : State L) (a : A)
    → o ≡ some a
    → Runs P (f a s)
    → Runs P ((unwrap o >>= f) s)
Runs-unwrap P o f s a e h = rw e h

pub Runs-when :
    {L : Type 0} (P : State L → Type 0) (b : Bool) (m : M L (Unit {0})) (s : State L)
    → Runs P (m s)
    → P s
    → Runs P (when b m s)
Runs-when P true m s h k = h
Runs-when P false m s h k = k

pub Runs-if :
    {L A : Type 0} (P : State L → Type 0) (b : Bool) (m k : M L A) (s : State L)
    → Runs P (m s)
    → Runs P (k s)
    → Runs P ((if b then m else k) s)
Runs-if P true m k s h i = h
Runs-if P false m k s h i = i

-- A check that is made under a condition, before further code.
pub Post-when-lift :
    {L B : Type 0} (P : State L → Type 0) (b : Bool) (o : Outcome (Unit {0})) (m : M L B)
    (s : State L)
    → Post P (m s)
    → Post P ((when b (lift o) >> m) s)
Post-when-lift P true (ok u) m s h = h
Post-when-lift P true (err x) m s h = tt
Post-when-lift P true panic m s h = tt
Post-when-lift P true endless m s h = tt
Post-when-lift P false o m s h = h

pub Post-when :
    {L : Type 0} (P : State L → Type 0) (b : Bool) (m : M L (Unit {0})) (s : State L)
    → Post P (m s)
    → P s
    → Post P (when b m s)
Post-when P true m s h k = h
Post-when P false m s h k = k

pub Post-if :
    {L A : Type 0} (P : State L → Type 0) (b : Bool) (m k : M L A) (s : State L)
    → Post P (m s)
    → Post P (k s)
    → Post P ((if b then m else k) s)
Post-if P true m k s h i = h
Post-if P false m k s h i = i

pub Runs-and :
    {L A : Type 0} (P Q : State L → Type 0) (r : Outcome A × State L)
    → Runs P r
    → Post Q r
    → Runs (λ s. P s × Q s) r
Runs-and P Q (ok a, t) h k = (h, k)
Runs-and P Q (err x, t) h k = h
Runs-and P Q (panic, t) h k = h
Runs-and P Q (endless, t) h k = tt

pub Runs-elim :
    {L A : Type 0} (P : State L → Type 0) (r : Outcome A × State L) (a : A) (t : State L)
    → Runs P r
    → r ≡ (ok a, t)
    → P t
Runs-elim P (ok x, s) a t h e = rw (ap state_of e) at h
Runs-elim P (err x, s) a t h e = cc
Runs-elim P (panic, s) a t h e = cc
Runs-elim P (endless, s) a t h e = cc

pub Runs-map :
    {L A : Type 0} (Q P : State L → Type 0) (r : Outcome A × State L)
    → ((s : State L) → Q s → P s)
    → Runs Q r
    → Runs P r
Runs-map Q P (ok a, t) f h = f t h
Runs-map Q P (err x, t) f h = h
Runs-map Q P (panic, t) f h = h
Runs-map Q P (endless, t) f h = tt

-- Three facts about one run.
pub Runs-and_and :
    {L A : Type 0} (P Q R : State L → Type 0) (r : Outcome A × State L)
    → Runs P r
    → Post Q r
    → Post R r
    → Runs (λ s. P s × Q s × R s) r
Runs-and_and P Q R (ok a, t) h k l = (h, k, l)
Runs-and_and P Q R (err x, t) h k l = h
Runs-and_and P Q R (panic, t) h k l = h
Runs-and_and P Q R (endless, t) h k l = tt
