-- ===== src/Rent/Properties/RoundTrips/Equipping.antt =====
-- `equip_collectible` and `unequip_collectible` of pallets/rent/src/lib.rs undo each other.
use mathlib.Core.List.{append_assoc}
use pallet_rent.Prelude.{
  ℕ, ◌≡◌, refl, ◌∙◌, false, some, List, [], ◌∷◌, ◌++◌, arith, ◌==◌, ==_refl, get_or, count,
  without-append, update, length, inl, inr, Bool-cases, Option-cases, ◌⊎◌, length-append,
}
use pallet_rent.Rent.Types.{
  Config, Collectible, State, collectible_equipped, collectible_unequipped, no_collectible,
  too_many_collectibles_equiped,
}
use pallet_rent.Rent.Effects.{ok}
use pallet_rent.Rent.Rules.{Post, Post-ok_or, Post-lift}
use pallet_rent.Rent.Helpers.{
  unequip_collectible_from_account, ensure_user_is_lessor, ensure_user_is_lessee,
}
use pallet_rent.Rent.Internal.{try_push}
use pallet_rent.Rent.Calls.{signed, equip_account, equip_collectible, unequip_collectible}
use pallet_rent.Rent.Invariant.ProcessKept.{WellFormed}
use pallet_rent.Rent.Properties.RoundTrips.{Restored}

-- Who may equip a collectible is the account that it is equipped to, and its lessor or its lessee.
equip_account_self :
    (a x : ℕ) (c : Collectible)
    → equip_account a c ≡ ok x
    → (x ≡ a) × ((c.lessor ≡ a) ⊎ (c.lessee ≡ some a))
unfolding equip_account ensure_user_is_lessor ensure_user_is_lessee
equip_account_self a x c e = elim (Bool-cases (c.lessor == a)) [
  | inl mine ↦ (ground (arith, e, mine), inl (ground (arith, mine)))
  | inr other ↦ elim (Option-cases c.lessee) [
    | inl free ↦ absurd (ground (arith, e, other, free))
    | inr (y, held) ↦ (ground (arith, e, other, held), inr (ground (arith, e, other, held)))
  ]
]

module _ {L : Type 0} (cfg : Config L) (s : State L) (w : WellFormed cfg s) (a : ℕ) where
  unequip-equipped :
      (id : ℕ) (c : Collectible) (ids : List ℕ) (t : State L)
      → t.collectibles id ≡ some c
      → c.collectible_id ≡ id
      → (c.lessor ≡ a) ⊎ (c.lessee ≡ some a)
      → get_or (t.account_equips a) [] ≡ ids ++ id ∷ []
      → count id ids ≡ 0
      → unequip_collectible cfg (signed a) id t ≡ (
        ok tt,
        record t {
          account_equips = update t.account_equips a (some ids);
          events =
              (t.events ++ collectible_unequipped a id ∷ []) ++ collectible_unequipped a id ∷ [];
        },
      )
  unfolding unequip_collectible ensure_user_is_lessor ensure_user_is_lessee
      unequip_collectible_from_account
  unequip-equipped id c ids t known keyed may has absent =
      let gone = without-append id ids absent in
      let shorter : (length (ids ++ id ∷ []) == length ids) ≡ false =
        ground (arith, length-append ids (id ∷ [])) in
      elim may [
        | inl mine ↦ elim (Option-cases c.lessee) [
          | inl free ↦ rw (known, mine, ==_refl a, free, keyed, has, gone, shorter) refl
          | inr (y, held) ↦ elim (Bool-cases (y == a)) [
            | inl self ↦ rw (known, mine, ==_refl a, held, self, keyed, has, gone, shorter) refl
            | inr other ↦ rw (known, mine, ==_refl a, held, other, keyed, has, gone, shorter) refl
          ]
        ]
        | inr held ↦ rw (known, held, ==_refl a, keyed, has, gone, shorter) refl
      ]

  -- On well-formed storage, what a successful `equip_collectible` by `a` equips, `unequip_collectible`
  -- takes off again if it was not equipped before: it succeeds, and then all of the storage is as
  -- before, where a list that is not stored counts as empty, but for the event that the collectible
  -- was equipped and two events that it was unequipped.
  pub equip-then-unequip :
      (id : ℕ)
      → count id (get_or (s.account_equips a) []) ≡ 0
      → Post
          (λ t.
            (u : State L) × (unequip_collectible cfg (signed a) id t ≡ (ok tt, u))
            × Restored s
                (collectible_equipped a id
                  ∷ collectible_unequipped a id
                  ∷ collectible_unequipped a id
                  ∷ [])
                u)
          (equip_collectible cfg (signed a) id s)
  unfolding equip_collectible
  equip-then-unequip id absent =
      let P = λ (t : State L).
        (u : State L) × (unequip_collectible cfg (signed a) id t ≡ (ok tt, u))
        × Restored s
            (collectible_equipped a id
              ∷ collectible_unequipped a id
              ∷ collectible_unequipped a id
              ∷ [])
            u in
      Post-ok_or P (s.collectibles id) no_collectible _ s λ c known.
        Post-lift P (equip_account a c) _ s λ x allowed.
          let (self, may) = equip_account_self a x c allowed in
          Post-ok_or P (try_push cfg (get_or (s.account_equips x) []) id)
            too_many_collectibles_equiped _ s
            λ ids pushed.
              let equiped = get_or (s.account_equips a) [] in
              let on = collectible_equipped a id ∷ [] in
              let off = collectible_unequipped a id ∷ [] in
              let added : ids ≡ equiped ++ id ∷ [] = ground (arith, rw self at pushed) in
              (
                _,
                unequip-equipped id c equiped _ known (w.kept.held.owned.keyed id c known) may
                    (ground (arith, self, added)) absent,
                record {
                  collectibles = λ j. refl;
                  owned = λ y. refl;
                  equipped = λ y. ground (arith, self);
                  leases = refl;
                  listed = refl;
                  pending = refl;
                  balances = refl;
                  events =
                      append_assoc (s.events ++ on) off off ∙ append_assoc s.events on (off ++ off);
                },
              )
