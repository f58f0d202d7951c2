-- ===== src/Node/Steps/Following.antt =====
-- Runs that follow a plan: what a run of the node's code in node/src does is the plan, or the part of it
-- before the first step that fails.
use mathlib.Core.List.{append_assoc, append-nil}
use mathlib.Core.Path.{subst}
use pallet_rent.Prelude.{
  ℕ, ◌≡◌, refl, sym, ap, ◌∙◌, Bool, true, false, Option, none, some, List, [], ◌∷◌, ◌++◌,
  if◌then◌else◌,
}
use pallet_rent.Node.Steps.{
  Action, Trace, library, Answer, ok, err, panic, N, continue, ◌>>=◌, ◌>>◌, pure, act, answer, try,
  when,
}

-- A step that cannot fail, one whose error is returned, and the search for the genesis block.
pub data Item : Type 0 where
  does : Action → Item
  tries : Action → Item
  needs_genesis : Item

abbrev pub Plan : Type 0
Plan = List Item

abbrev pub planned : Bool → Plan → Plan
planned b p = if b then p else []

-- The steps of a plan.
abbrev pub actions : Plan → Trace
actions [] = []
actions (does a ∷ p) = a ∷ actions p
actions (tries a ∷ p) = a ∷ actions p
actions (needs_genesis ∷ p) = actions p

actions-append : (p q : Plan) → actions (p ++ q) ≡ actions p ++ actions q
actions-append [] q = refl
actions-append (does a ∷ p) q = ap (λ t. a ∷ t) (actions-append p q)
actions-append (tries a ∷ p) q = ap (λ t. a ∷ t) (actions-append p q)
actions-append (needs_genesis ∷ p) q = actions-append p q

module _ (fails : Trace → Action → Option ℕ) (has_genesis : Trace → Bool) where
  -- From the steps `t`, no item of the plan fails.
  abbrev pub Passes : Trace → Plan → Type 0
  Passes t [] = Unit
  Passes t (does a ∷ p) = Passes (t ++ a ∷ []) p
  Passes t (tries a ∷ p) = (fails t a ≡ none) × Passes (t ++ a ∷ []) p
  Passes t (needs_genesis ∷ p) = (has_genesis t ≡ true) × Passes t p

  -- From the steps `t`, the answer is `v` with all of the plan done, in which nothing failed; or
  -- nothing failed before a step that failed, with its error, which ends the run; or nothing failed
  -- before the genesis block was looked for and not found.
  abbrev pub Follows : {A : Type 0} → Plan → A → Trace → Answer A × Trace → Type 0
  Follows p v t (ok a, u) = (a ≡ v) × (u ≡ t ++ actions p) × Passes t p
  Follows p v t (err e, u) =
      (did : Plan) × (a : Action) × (rest : Plan) × (code : ℕ) × (p ≡ did ++ tries a ∷ rest)
      × (u ≡ t ++ actions did)
      × Passes t did
      × (fails u a ≡ some code)
      × (e ≡ library code)
  Follows p v t (panic, u) =
      (did : Plan) × (rest : Plan) × (p ≡ did ++ needs_genesis ∷ rest)
      × (u ≡ t ++ actions did)
      × Passes t did
      × (has_genesis u ≡ false)

  pub record Does {A : Type 0} (p : Plan) (v : A) (m : N A) : Type 0 where
    pub follows : (t : Trace) → Follows p v t (m t)

  Passes-after_step :
      (t : Trace) (a : Action) (p q : Plan)
      → Passes (t ++ (a ∷ actions p)) q
      → Passes ((t ++ a ∷ []) ++ actions p) q
  Passes-after_step t a p q h =
      subst (λ u. Passes u q) (sym (append_assoc t (a ∷ []) (actions p))) h

  Passes-append :
      (p q : Plan) (t : Trace) → Passes t p → Passes (t ++ actions p) q → Passes t (p ++ q)
  Passes-append [] q t h k = subst (λ u. Passes u q) (append-nil t) k
  Passes-append (does a ∷ p) q t h k =
      Passes-append p q (t ++ a ∷ []) h (Passes-after_step t a p q k)
  Passes-append (tries a ∷ p) q t h k =
      (h.0, Passes-append p q (t ++ a ∷ []) h.1 (Passes-after_step t a p q k))
  Passes-append (needs_genesis ∷ p) q t h k = (h.0, Passes-append p q t h.1 k)

  done_append :
      (p q : Plan) (t u : Trace) → u ≡ (t ++ actions p) ++ actions q → u ≡ t ++ actions (p ++ q)
  done_append p q t u e =
      e ∙ append_assoc t (actions p) (actions q) ∙ ap (λ x. t ++ x) (sym (actions-append p q))

  -- A plan that is followed after another, in which nothing failed.
  Follows-after :
      {B : Type 0} (p q : Plan) (w : B) (t : Trace) (r : Answer B × Trace)
      → Passes t p
      → Follows q w (t ++ actions p) r
      → Follows (p ++ q) w t r
  Follows-after p q w t (ok b, u) pass (is, done, passed) =
      (is, done_append p q t u done, Passes-append p q t pass passed)
  Follows-after p q w t (err e, u) pass (did, a, rest, code, cut, done, passed, failed, is) = (
    p ++ did,
    a,
    rest,
    code,
    ap (λ x. p ++ x) cut ∙ sym (append_assoc p did (tries a ∷ rest)),
    done_append p did t u done,
    Passes-append p did t pass passed,
    failed,
    is,
  )
  Follows-after p q w t (panic, u) pass (did, rest, cut, done, passed, lost) = (
    p ++ did,
    rest,
    ap (λ x. p ++ x) cut ∙ sym (append_assoc p did (needs_genesis ∷ rest)),
    done_append p did t u done,
    Passes-append p did t pass passed,
    lost,
  )

  Follows-continue :
      {A B : Type 0} (p q : Plan) (v : A) (w : B) (f : A → N B) (t : Trace) (r : Answer A × Trace)
      → Follows p v t r
      → Does q w (f v)
      → Follows (p ++ q) w t (continue f r)
  Follows-continue p q v w f t (ok a, u) (is, done, passed) k =
      rw (is, done)
        (Follows-after p q w t (f v (t ++ actions p)) passed (k.follows (t ++ actions p)))
  Follows-continue p q v w f t (err e, u) (did, a, rest, code, cut, done, passed, failed, is) k = (
    did,
    a,
    rest ++ q,
    code,
    ap (λ x. x ++ q) cut ∙ append_assoc did (tries a ∷ rest) q,
    done,
    passed,
    failed,
    is,
  )
  Follows-continue p q v w f t (panic, u) (did, rest, cut, done, passed, lost) k = (
    did,
    rest ++ q,
    ap (λ x. x ++ q) cut ∙ append_assoc did (needs_genesis ∷ rest) q,
    done,
    passed,
    lost,
  )

  pub Does-bind :
      {A B : Type 0} (p q : Plan) (v : A) (w : B) (m : N A) (f : A → N B)
      → Does p v m
      → Does q w (f v)
      → Does (p ++ q) w (m >>= f)
  Does-bind p q v w m f h k = record {
    follows = λ t. Follows-continue p q v w f t (m t) (h.follows t) k;
  }

  pub Does-pure : {A : Type 0} (v : A) → Does [] v (pure v)
  Does-pure v = record { follows = λ t. (refl, sym (append-nil t), tt) }

  pub Does-act : (a : Action) → Does (does a ∷ []) tt (act a)
  Does-act a = record { follows = λ t. (refl, refl, tt) }

  Does-when :
      (b : Bool) (p : Plan) (m : N (Unit {0})) → Does p tt m → Does (planned b p) tt (when b m)
  Does-when true p m h = h
  Does-when false p m h = Does-pure tt

  answer-Follows :
      (a : Action) (t : Trace) (o : Option ℕ)
      → fails t a ≡ o
      → Follows (tries a ∷ []) tt t (answer a t o)
  answer-Follows a t none e = (refl, refl, (e, tt))
  answer-Follows a t (some code) e = ([], a, [], code, refl, sym (append-nil t), tt, e, refl)

  pub Does-try : (a : Action) → Does (tries a ∷ []) tt (try fails a)
  Does-try a = record { follows = λ t. answer-Follows a t (fails t a) refl }

  -- One step, and what follows.
  pub Does-step :
      {B : Type 0} (a : Action) (q : Plan) (w : B) (k : N B)
      → Does q w k
      → Does (does a ∷ q) w (act a >> k)
  Does-step a q w k h = Does-bind (does a ∷ []) q tt w (act a) (λ _. k) (Does-act a) h

  pub Does-try_step :
      {B : Type 0} (a : Action) (q : Plan) (w : B) (k : N B)
      → Does q w k
      → Does (tries a ∷ q) w (try fails a >> k)
  Does-try_step a q w k h = Does-bind (tries a ∷ []) q tt w (try fails a) (λ _. k) (Does-try a) h

  pub Does-when_step :
      {B : Type 0} (b : Bool) (p q : Plan) (w : B) (m : N (Unit {0})) (k : N B)
      → Does p tt m
      → Does q w k
      → Does (planned b p ++ q) w (when b m >> k)
  Does-when_step b p q w m k h l =
      Does-bind (planned b p) q tt w (when b m) (λ _. k) (Does-when b p m h) l
