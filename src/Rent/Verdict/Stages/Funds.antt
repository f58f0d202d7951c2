-- ===== src/Rent/Verdict/Stages/Funds.antt =====
-- `rent` and `extend_rent` of pallets/rent/src/lib.rs have the outcome of their stages.
use native.Mathlib.Decide.{dec_lt}
use pallet_rent.Prelude.{
  ℕ, ◌*◌, ◌%◌, ◌≡◌, refl, Bool, true, false, not, ◌||◌, ◌⊎◌, Option, none, some, List, [], ◌∷◌,
  ◌++◌, ltb, leb, ◌==◌, is_none, eq_option, get_or, length, retain, update, inl, inr, Bool-cases,
  Option-cases, arith,
}
use pallet_rent.Rent.Types.{
  keep_alive, Config, Collectible, State, Error, no_collectible, no_lessee, not_lessee,
  already_rented, rent_payed, rental_period_removed,
}
use pallet_rent.Rent.Effects.{
  Outcome, ok, panic, endless, M, ensure, ok_or, unwrap, unwrap_result, lift, continue, ◌>>=◌, ◌>>◌,
}
use pallet_rent.Rent.Rules.{Transfer-cases}
use pallet_rent.Rent.Helpers.{
  u32_bound, add_blocks, mul_balance, rounds, find_block, convert_to_primitive,
  ensure_user_is_lessee, transfer_funds, append_pending_rental_to_available_block,
}
use pallet_rent.Rent.Helpers.Search.{find_block-ends, find_block-endless}
use pallet_rent.Rent.Internal.{do_rent_collectible, do_extend_rent}
use pallet_rent.Rent.Calls.{signed, rent, extend_rent}
use pallet_rent.Rent.Verdict.{without_value}
use pallet_rent.Rent.Verdict.Stages.{
  Stages, outcome_of, given, error, pays, has_room, places, rent_stages, extend_rent_stages,
}

-- The outcome is the one of the stages.
record Staged {L A : Type 0} (cs : Stages) (r : Outcome A × State L) : Type 0 where
  staged : without_value r.0 ≡ outcome_of cs

module _ {L : Type 0} where
  Staged-ensure :
      {B : Type 0} (b : Bool) (x : Error) (cs : Stages) (m : M L B) (s : State L)
      → (b ≡ true → Staged cs (m s))
      → Staged ((b, error x) ∷ cs) ((ensure b x >> m) s)
  Staged-ensure true x cs m s k = record { staged = (k refl).staged }
  Staged-ensure false x cs m s k = record { staged = refl }

  Staged-ok_or :
      {A B : Type 0} (o : Option A) (x : Error) (cs : A → Stages) (f : A → M L B) (s : State L)
      → ((a : A) → o ≡ some a → Staged (cs a) (f a s))
      → Staged (given o (error x) cs) ((ok_or o x >>= f) s)
  Staged-ok_or none x cs f s k = record { staged = refl }
  Staged-ok_or (some a) x cs f s k = k a refl

  Staged-unwrap :
      {A B : Type 0} (o : Option A) (cs : A → Stages) (f : A → M L B) (s : State L)
      → ((a : A) → o ≡ some a → Staged (cs a) (f a s))
      → Staged (given o panic cs) ((unwrap o >>= f) s)
  Staged-unwrap none cs f s k = record { staged = refl }
  Staged-unwrap (some a) cs f s k = k a refl

  Staged-lessee :
      {B : Type 0} (a : ℕ) (c : Collectible) (cs : Stages) (m : M L B) (s : State L)
      → (c.lessee ≡ some a → Staged cs (m s))
      → Staged
          ((not (is_none c.lessee), error no_lessee)
            ∷ (eq_option c.lessee (some a), error not_lessee)
            ∷ cs)
          ((lift (ensure_user_is_lessee a c) >>= λ _. m) s)
  unfolding ensure_user_is_lessee
  Staged-lessee a c cs m s k = record {
    staged = elim (Option-cases c.lessee) [
      | inl free ↦ rw free refl
      | inr (x, held) ↦ elim (Bool-cases (x == a)) [
        | inl mine ↦ rw (held, mine) (k (ground (arith, held, mine))).staged
        | inr other ↦ rw (held, other) refl
      ]
    ];
  }

  Staged-convert :
      {B : Type 0} (n : ℕ) (cs : Stages) (f : ℕ → M L B) (s : State L)
      → Staged cs (f n s)
      → Staged ((ltb n u32_bound, panic) ∷ cs) ((lift (convert_to_primitive n) >>= f) s)
  unfolding convert_to_primitive
  Staged-convert n cs f s k = record {
    staged = elim (Bool-cases (ltb n u32_bound)) [
      | inl small ↦ rw small k.staged
      | inr big ↦ rw big refl
    ];
  }

  -- Checks that hold anyway.
  Staged-passed :
      {B : Type 0} (b : Bool) (x : Error) (cs : Stages) (m : M L B) (s : State L)
      → b ≡ true
      → Staged cs (m s)
      → Staged cs ((ensure b x >> m) s)
  Staged-passed true x cs m s e k = record { staged = k.staged }
  Staged-passed false x cs m s e k = cc

  Staged-known :
      {A B : Type 0} (o : Option A) (x : Error) (a : A) (cs : Stages) (f : A → M L B) (s : State L)
      → o ≡ some a
      → Staged cs (f a s)
      → Staged cs ((ok_or o x >>= f) s)
  Staged-known o x a cs f s e k = rw e (record { staged = k.staged })

  Staged-unwrap_known :
      {A B : Type 0} (o : Option A) (a : A) (cs : Stages) (f : A → M L B) (s : State L)
      → o ≡ some a
      → Staged cs (f a s)
      → Staged cs ((unwrap o >>= f) s)
  Staged-unwrap_known o a cs f s e k = rw e (record { staged = k.staged })

module _ {L : Type 0} (cfg : Config L) (s : State L) where
  Staged-transfer :
      {B : Type 0} (from to amount : ℕ) (cs : Stages) (m : M L B)
      → ((l : L) → Staged cs (m (record s { balances = l })))
      → Staged (pays cfg s from to amount cs) ((transfer_funds cfg from to amount >>= λ _. m) s)
  unfolding transfer_funds
  Staged-transfer from to amount cs m k = record {
    staged = elim (Bool-cases (leb amount (cfg.free_balance s.balances from))) [
      | inl enough ↦ elim (Transfer-cases (cfg.transfer s.balances from to amount keep_alive)) [
        | inl (l, paid) ↦ rw (enough, paid) (k l).staged
        | inr (code, unpaid) ↦ rw (enough, unpaid) refl
      ]
      | inr short ↦ rw short refl
    ];
  }

  -- The search ends with a block where one of the two has room, and else it never ends.
  find_block-outcome :
      (pending : ℕ → List (ℕ × ℕ)) (wanted : ℕ)
      → let room =
          has_room cfg s pending wanted
          || has_room cfg s pending (add_blocks cfg s.block_number 1) in
        ((b : ℕ) × (find_block cfg rounds s.block_number pending wanted ≡ ok b) × (room ≡ true))
        ⊎ ((find_block cfg rounds s.block_number pending wanted ≡ endless) × (room ≡ false))
  find_block-outcome pending wanted =
      elim (dec_lt (length (pending wanted)) cfg.maximum_rentables_per_block) [
        | yes here ↦
            let (b, found, roomy, which) =
              find_block-ends cfg s.block_number pending wanted (inl here) in
            inl (b, found, ground (arith, here))
        | no full ↦
            elim (dec_lt (length (pending (add_blocks cfg s.block_number 1)))
              cfg.maximum_rentables_per_block) [
                | yes there ↦
                    let (b, found, roomy, which) =
                      find_block-ends cfg s.block_number pending wanted (inr there) in
                    inl (b, found, ground (arith, full, there))
                | no both ↦ inr (
                  find_block-endless cfg s.block_number pending wanted full both rounds,
                  ground (arith, full, both),
                )
              ]
      ]

  Staged-append :
      {B : Type 0} (start : Option ℕ) (additional id lessee : ℕ) (f : ℕ → M L B)
      → ((b : ℕ) (t : State L) → without_value (f b t).0 ≡ ok tt)
      → Staged
          (places cfg s s.pending_rentals (add_blocks cfg (get_or start s.block_number) additional))
          ((append_pending_rental_to_available_block cfg start additional id lessee >>= f) s)
  unfolding append_pending_rental_to_available_block
  Staged-append start additional id lessee f k = record {
    staged =
        elim (find_block-outcome s.pending_rentals
          (add_blocks cfg (get_or start s.block_number) additional)) [
            | inl (b, found, room) ↦ rw (found, room) (k b _)
            | inr (lost, full) ↦ rw (lost, full) refl
          ];
  }

  -- The same where the result is unwrapped.
  Staged-append_unwrapped :
      {B : Type 0} (start : Option ℕ) (additional id lessee : ℕ) (f : ℕ → M L B)
      → ((b : ℕ) (t : State L) → without_value (f b t).0 ≡ ok tt)
      → Staged
          (places cfg s s.pending_rentals (add_blocks cfg (get_or start s.block_number) additional))
          (continue f (
            unwrap_result
              (append_pending_rental_to_available_block cfg start additional id lessee s)))
  unfolding append_pending_rental_to_available_block
  Staged-append_unwrapped start additional id lessee f k = record {
    staged =
        elim (find_block-outcome s.pending_rentals
          (add_blocks cfg (get_or start s.block_number) additional)) [
            | inl (b, found, room) ↦ rw (found, room) (k b _)
            | inr (lost, full) ↦ rw (lost, full) refl
          ];
  }

module _ {L : Type 0} (cfg : Config L) (s : State L) (a id blocks : ℕ) where
  rent-stages :
      (recurring : Bool)
      → Staged (rent_stages cfg s a id blocks) (rent cfg (signed a) id blocks recurring s)
  unfolding rent do_rent_collectible
  rent-stages recurring = Staged-ok_or (s.collectibles id) no_collectible _ _ s λ c known.
      Staged-ensure _ _ _ _ s λ long. Staged-ensure _ _ _ _ s λ short.
        Staged-ensure _ _ _ _ s λ other. Staged-ensure _ _ _ _ s λ free.
          Staged-passed (not (eq_option c.lessee (some a))) already_rented _ _ s
            (ground (arith, free))
            (Staged-known (s.collectibles id) no_collectible c _ _ s known (
              Staged-unwrap c.price_per_block _ _ s λ price priced.
                let total = mul_balance cfg price blocks in
                Staged-transfer cfg s a c.lessor total _ _ λ l.
                  Staged-append_unwrapped cfg
                    (record s {
                      balances = l;
                      events = s.events ++ rent_payed c.lessor a id total ∷ [];
                    })
                    none blocks id a _ λ b t. refl))

  extend_rent-stages :
      Staged (extend_rent_stages cfg s a id blocks) (extend_rent cfg (signed a) id blocks s)
  unfolding extend_rent do_extend_rent
  extend_rent-stages = Staged-ok_or (s.collectibles id) no_collectible _ _ s λ c known.
      Staged-lessee a c _ _ s λ held. Staged-unwrap_known c.lessee a _ _ s held (
        Staged-ok_or (s.lessee_collectibles a c.collectible_id) no_collectible _ _ s λ r rented.
          Staged-unwrap c.maximum_rental_period _ _ s λ maximum limited.
            Staged-ensure _ _ _ _ s λ short. Staged-convert blocks _ _ s (
              Staged-unwrap c.price_per_block _ _ s λ price priced. Staged-convert price _ _ s (
                let total = (blocks * price) % u32_bound in
                let old = r.next_rent_block in
                let id' = c.collectible_id in
                Staged-transfer cfg s a c.lessor total _ _ λ l.
                  Staged-append cfg
                    (record s {
                      balances = l;
                      pending_rentals =
                          update s.pending_rentals old
                            (retain (λ e. not (e.0 == id')) (s.pending_rentals old));
                      events =
                          (s.events ++ rent_payed c.lessor a id' total ∷ [])
                          ++ rental_period_removed id' old ∷ [];
                    })
                    (some old) blocks id' a _ λ b t. refl)))

  -- A call of `rent` by a signed account succeeds if all of its stages hold, and else the first that
  -- does not decides: it returns the stage's error, panics where there is no price, and never ends
  -- where neither the block at the end of the period nor the one after the current block has room.
  -- `AlreadyRented` is not among the errors, and being rentable not among the stages.
  pub rent-Staged :
      (recurring : Bool)
      → without_value (rent cfg (signed a) id blocks recurring s).0
        ≡ outcome_of (rent_stages cfg s a id blocks)
  rent-Staged recurring = (rent-stages recurring).staged

  -- A call of `extend_rent` by a signed account succeeds if all of its stages hold, and else the first
  -- that does not decides: it returns the stage's error, panics where there is no maximum period or
  -- no price, or the blocks or the price are 2 ^ 32 or more, and never ends where neither the old due
  -- block plus the blocks, nor the block after the current one, has room once the entry is removed.
  pub extend_rent-Staged :
      without_value (extend_rent cfg (signed a) id blocks s).0
      ≡ outcome_of (extend_rent_stages cfg s a id blocks)
  extend_rent-Staged = extend_rent-stages.staged
