-- ===== src/Rent/Verdict/Rules.antt =====
-- Rules for the checks that the functions of pallets/rent/src/lib.rs make, step by step.
use pallet_rent.Prelude.{
  ℕ, ◌≡◌, refl, Bool, true, false, not, ◌&&◌, ◌||◌, Option, none, some, List, [], ◌∷◌, ◌++◌, ltb,
  ◌==◌, ==_eq, is_none, without, eq_option, get_or, length, inl, inr, Bool-cases, Option-cases,
}
use pallet_rent.Rent.Types.{
  Config, Collectible, State, Event, Error, no_lessee, not_lessor, not_lessee,
  not_allowed_while_rented, no_account_found_for_collectible,
}
use pallet_rent.Rent.Effects.{
  Outcome, M, deposit_event, ensure, ok_or, lift, when, is_ok, ◌>>=◌, ◌>>◌,
}
use pallet_rent.Rent.Helpers.{
  ensure_user_is_lessor, ensure_user_is_lessee, unequip_collectible_from_account,
}
use pallet_rent.Rent.Internal.{try_push}
use pallet_rent.Rent.Calls.{equip_account}
use pallet_rent.Rent.Verdict.{Checks, verdict_of, without_value, found}

-- The outcome is the one of the checks.
pub record Judged {L A : Type 0} (cs : Checks) (r : Outcome A × State L) : Type 0 where
  pub judged : without_value r.0 ≡ verdict_of cs

module _ {L : Type 0} where
  pub Judged-ensure :
      {B : Type 0} (b : Bool) (x : Error) (cs : Checks) (m : M L B) (s : State L)
      → (b ≡ true → Judged cs (m s))
      → Judged ((b, x) ∷ cs) ((ensure b x >> m) s)
  Judged-ensure true x cs m s k = record { judged = (k refl).judged }
  Judged-ensure false x cs m s k = record { judged = refl }

  pub Judged-found :
      {A B : Type 0} (o : Option A) (x : Error) (cs : A → Checks) (f : A → M L B) (s : State L)
      → ((a : A) → o ≡ some a → Judged (cs a) (f a s))
      → Judged (found o x cs) ((ok_or o x >>= f) s)
  Judged-found none x cs f s k = record { judged = refl }
  Judged-found (some a) x cs f s k = k a refl

  pub Judged-push :
      {B : Type 0} (cfg : Config L) (ids : List ℕ) (id : ℕ) (x : Error) (cs : Checks)
      (f : List ℕ → M L B) (s : State L)
      → Judged cs (f (ids ++ id ∷ []) s)
      → Judged
          ((ltb (length ids) cfg.maximum_owned, x) ∷ cs)
          ((ok_or (try_push cfg ids id) x >>= f) s)
  Judged-push cfg ids id x cs f s k = record {
    judged = elim (Bool-cases (ltb (length ids) cfg.maximum_owned)) [
      | inl room ↦ rw room k.judged
      | inr full ↦ rw full refl
    ];
  }

  pub Judged-lessor :
      {B : Type 0} (a : ℕ) (c : Collectible) (cs : Checks) (m : M L B) (s : State L)
      → Judged cs (m s)
      → Judged ((c.lessor == a, not_lessor) ∷ cs) ((lift (ensure_user_is_lessor a c) >>= λ _. m) s)
  unfolding ensure_user_is_lessor
  Judged-lessor a c cs m s k = record {
    judged = elim (Bool-cases (c.lessor == a)) [
      | inl mine ↦ rw mine k.judged
      | inr other ↦ rw other refl
    ];
  }

  pub Judged-lessee :
      {B : Type 0} (a : ℕ) (c : Collectible) (cs : Checks) (m : M L B) (s : State L)
      → Judged cs (m s)
      → Judged
          ((not (is_none c.lessee), no_lessee) ∷ (eq_option c.lessee (some a), not_lessee) ∷ cs)
          ((lift (ensure_user_is_lessee a c) >>= λ _. m) s)
  unfolding ensure_user_is_lessee
  Judged-lessee a c cs m s k = record {
    judged = elim (Option-cases c.lessee) [
      | inl free ↦ rw free refl
      | inr (x, held) ↦ elim (Bool-cases (x == a)) [
        | inl mine ↦ rw (held, mine) k.judged
        | inr other ↦ rw (held, other) refl
      ]
    ];
  }

  -- The account that is equipped is the caller.
  pub Judged-equip_account :
      {B : Type 0} (a : ℕ) (c : Collectible) (cs : Checks) (f : ℕ → M L B) (s : State L)
      → Judged cs (f a s)
      → Judged
          (((c.lessor == a) || not (is_none c.lessee), no_account_found_for_collectible)
            ∷ ((c.lessor == a) || eq_option c.lessee (some a), not_lessee)
            ∷ (not ((c.lessor == a) && c.rentable), not_allowed_while_rented)
            ∷ cs)
          ((lift (equip_account a c) >>= f) s)
  unfolding equip_account ensure_user_is_lessor ensure_user_is_lessee
  Judged-equip_account a c cs f s k = record {
    judged = elim (Bool-cases (c.lessor == a)) [
      | inl mine ↦ elim (Bool-cases c.rentable) [
        | inl offered ↦ rw (mine, offered) refl
        | inr kept ↦ rw (mine, kept, ==_eq c.lessor a mine) k.judged
      ]
      | inr other ↦ elim (Option-cases c.lessee) [
        | inl free ↦ rw (other, free) refl
        | inr (x, held) ↦ elim (Bool-cases (x == a)) [
          | inl same ↦ rw (other, held, held, same, ==_eq x a same) k.judged
          | inr stranger ↦ rw (other, held, held, stranger) refl
        ]
      ]
    ];
  }

  -- Who may unequip: the lessor or the lessee.
  pub Judged-allowed :
      {B : Type 0} (a : ℕ) (c : Collectible) (cs : Checks) (m : M L B) (s : State L)
      → Judged cs (m s)
      → Judged (((c.lessor == a) || eq_option c.lessee (some a), not_lessor) ∷ cs) (
          (when (not (is_ok (ensure_user_is_lessee a c))) (lift (ensure_user_is_lessor a c)) >> m)
            s)
  unfolding ensure_user_is_lessor ensure_user_is_lessee
  Judged-allowed a c cs m s k = record {
    judged = elim (Bool-cases (c.lessor == a)) [
      | inl mine ↦ elim (Option-cases c.lessee) [
        | inl free ↦ rw (mine, free) k.judged
        | inr (x, held) ↦ elim (Bool-cases (x == a)) [
          | inl same ↦ rw (mine, held, same) k.judged
          | inr stranger ↦ rw (mine, held, stranger) k.judged
        ]
      ]
      | inr other ↦ elim (Option-cases c.lessee) [
        | inl free ↦ rw (other, free) refl
        | inr (x, held) ↦ elim (Bool-cases (x == a)) [
          | inl same ↦ rw (other, held, same) k.judged
          | inr stranger ↦ rw (other, held, stranger) refl
        ]
      ]
    ];
  }

  pub Judged-unequip :
      (account id : ℕ) (s : State L) → Judged [] (unequip_collectible_from_account account id s)
  unfolding unequip_collectible_from_account
  Judged-unequip account id s =
      let equiped = get_or (s.account_equips account) [] in
      record {
        judged = elim (Bool-cases (length equiped == length (without id equiped))) [
          | inl same ↦ rw same refl
          | inr fewer ↦ rw fewer refl
        ];
      }

  pub Judged-unequip_then :
      (account id : ℕ) (e : Event) (s : State L)
      → Judged [] ((unequip_collectible_from_account account id >> deposit_event e) s)
  unfolding unequip_collectible_from_account
  Judged-unequip_then account id e s =
      let equiped = get_or (s.account_equips account) [] in
      record {
        judged = elim (Bool-cases (length equiped == length (without id equiped))) [
          | inl same ↦ rw same refl
          | inr fewer ↦ rw fewer refl
        ];
      }
