-- ===== src/Rent/Properties/RoundTrips.antt =====
-- `mint` and `burn` of pallets/rent/src/lib.rs undo each other; what it means that a storage is restored.
pub mod Equipping
use pallet_rent.Prelude.{
  ℕ, ◌≡◌, refl, Option, none, some, List, [], ◌∷◌, ◌++◌, arith, ◌==◌, ==_refl, is_none, get_or,
  count, without, without_absent, without-append, update, update_self, length,
}
use pallet_rent.Rent.Types.{
  Config, Collectible, State, Event, collectible_created, duplicate_collectible,
  too_many_collectibles_owned,
}
use pallet_rent.Rent.Effects.{ok}
use pallet_rent.Rent.Rules.{Post, Post-continue, Post-elim, Post-ok_or, Post-ensure}
use pallet_rent.Rent.Helpers.{
  gen_collectible_id, unequip_collectible_from_account, ensure_user_is_lessor,
}
use pallet_rent.Rent.Internal.{minted, try_push, do_mint}
use pallet_rent.Rent.Calls.{signed, mint, burn}
use pallet_rent.Rent.Invariant.ProcessKept.{WellFormed}

-- Two lists of each account are the same, where one that is not stored is empty.
abbrev SameLists : (ℕ → Option (List ℕ)) → (ℕ → Option (List ℕ)) → Type 0
SameLists f g = (x : ℕ) → get_or (f x) [] ≡ get_or (g x) []

update_same_list :
    (f : ℕ → Option (List ℕ)) (a : ℕ) (xs : List ℕ)
    → xs ≡ get_or (f a) []
    → SameLists (update f a (some xs)) f
update_same_list f a xs h x = ground (arith, h)

module _ {L : Type 0} where
  -- The storage `t` has what `s` has, the events apart, which are those of `s` and then `evs`.
  pub record Restored (s : State L) (evs : List Event) (t : State L) : Type 0 where
    pub collectibles : (j : ℕ) → t.collectibles j ≡ s.collectibles j
    pub owned : (x : ℕ) → get_or (t.lessor_collectibles x) [] ≡ get_or (s.lessor_collectibles x) []
    pub equipped : (x : ℕ) → get_or (t.account_equips x) [] ≡ get_or (s.account_equips x) []
    pub leases : t.lessee_collectibles ≡ s.lessee_collectibles
    pub listed : t.rentable_collectibles ≡ s.rentable_collectibles
    pub pending : t.pending_rentals ≡ s.pending_rentals
    pub balances : t.balances ≡ s.balances
    pub events : t.events ≡ s.events ++ evs

  -- Nothing is unequipped from an account that has not equipped the collectible.
  unequip-absent :
      (a id : ℕ) (t : State L)
      → count id (get_or (t.account_equips a) []) ≡ 0
      → unequip_collectible_from_account a id t ≡ (
        ok tt,
        record t {
          account_equips = update t.account_equips a (some (get_or (t.account_equips a) []));
        },
      )
  unfolding unequip_collectible_from_account
  unequip-absent a id t absent =
      let equiped = get_or (t.account_equips a) [] in
      rw (without_absent id equiped absent, ==_refl (length equiped)) refl

module _ {L : Type 0} (cfg : Config L) (s : State L) (w : WellFormed cfg s) (a : ℕ) where
  burn-minted :
      (id : ℕ) (c : Collectible) (t : State L)
      → t.collectibles id ≡ some c
      → c.lessor ≡ a
      → c.lessee ≡ none
      → c.collectible_id ≡ id
      → count id (get_or (t.account_equips a) []) ≡ 0
      → burn cfg (signed a) id t ≡ (
        ok tt,
        record t {
          collectibles = update t.collectibles id none;
          lessor_collectibles =
              update t.lessor_collectibles a
                (some (without id (get_or (t.lessor_collectibles a) [])));
          account_equips = update t.account_equips a (some (get_or (t.account_equips a) []));
        },
      )
  unfolding burn ensure_user_is_lessor
  burn-minted id c t known mine free keyed absent =
      rw (known, mine, ==_refl a, free, keyed)
        (unequip-absent a id
          (record t {
            collectibles = update t.collectibles id none;
            lessor_collectibles =
                update t.lessor_collectibles a
                  (some (without id (get_or (t.lessor_collectibles a) [])));
          })
          absent)

  -- On well-formed storage, what a successful `mint` by `a` adds, `burn` by `a` takes away: `burn` of
  -- the minted id succeeds, and then all of the storage is as before `mint`, where a list that is
  -- not stored counts as empty, but for the event that the collectible was created.
  pub mint-then-burn :
      let id = gen_collectible_id cfg s in
      Post
        (λ t.
          (u : State L) × (burn cfg (signed a) id t ≡ (ok tt, u))
          × Restored s (collectible_created id a none ∷ []) u)
        (mint cfg (signed a) s)
  unfolding mint do_mint
  mint-then-burn =
      let id = gen_collectible_id cfg s in
      let owned = get_or (s.lessor_collectibles a) [] in
      let P = λ (t : State L).
        (u : State L) × (burn cfg (signed a) id t ≡ (ok tt, u))
        × Restored s (collectible_created id a none ∷ []) u in
      let t = record s { collectibles = update s.collectibles id (some (minted id a)) } in
      Post-continue P (do_mint cfg a id s) _ λ x v done.
        Post-elim P (do_mint cfg a id s) x v
          (Post-ensure P (is_none (s.collectibles id)) duplicate_collectible _ s λ new.
            Post-ok_or P (try_push cfg owned id) too_many_collectibles_owned _ t λ ids pushed.
              let fresh : s.collectibles id ≡ none = ground (arith, new) in
              let unowned : count id owned ≡ 0 =
                ground (arith, fresh, w.kept.held.owned.owned a id) in
              let absent : count id (get_or (s.account_equips a) []) ≡ 0 =
                ground (arith, fresh, w.kept.held.entitled.allowed a id) in
              let added : ids ≡ owned ++ id ∷ [] = ground (arith, pushed) in
              (
                _,
                burn-minted id (minted id a) _ (update_self s.collectibles id (some (minted id a)))
                    refl refl refl absent,
                record {
                  collectibles = λ j. ground (arith, fresh);
                  owned = λ y. ground (arith, added, without-append id owned unowned);
                  equipped = λ y. ground arith;
                  leases = refl;
                  listed = refl;
                  pending = refl;
                  balances = refl;
                  events = refl;
                },
              ))
          done
