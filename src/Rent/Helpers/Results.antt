-- ===== src/Rent/Helpers/Results.antt =====
-- What `transfer_funds` and `append_pending_rental_to_available_block` of
-- pallets/rent/src/lib.rs leave behind: each branch of their results.
use pallet_rent.Prelude.{
  ℕ, zero, suc, ◌+◌, ◌≤◌, ◌≡◌, refl, ◌⊎◌, inl, inr, Option, none, some, List, [], ◌∷◌, ◌++◌, arith,
  get_or, length, without, update, update₂, ◌==◌, Bool-cases, leb,
}
use pallet_rent.Rent.Types.{
  keep_alive, moved, Config, Collectible, collectible_unequipped, Event, rental_period_added, State,
  not_enough_balance,
}
use pallet_rent.Rent.Effects.{
  DispatchError, module_error, currency_error, ok, err, endless, M, ◌>>◌,
}
use pallet_rent.Rent.Rules.{Post, Transfer-cases}
use pallet_rent.Rent.Helpers.{
  add_blocks, rounds, find_block, append_pending_rental_to_available_block, transfer_funds,
  unequip_collectible_from_account, remove_lessee_from_collectible,
}

module _ {L : Type 0} (cfg : Config L) where
  -- A successful transfer replaces the balances by those that the currency returned.
  pub transfer_funds-ok :
      (from to amount : ℕ) (s t : State L)
      → transfer_funds cfg from to amount s ≡ (ok tt, t)
      → (balances : L) × (cfg.transfer s.balances from to amount keep_alive ≡ moved balances)
        × (amount ≤ cfg.free_balance s.balances from)
        × (t ≡ record s { balances = balances })
  unfolding transfer_funds
  transfer_funds-ok from to amount s t e =
      elim (Transfer-cases (cfg.transfer s.balances from to amount keep_alive)) [
        | inl (balances, m) ↦ (balances, m, ground arith, ground arith)
        | inr (code, m) ↦ absurd (ground arith)
      ]

  pub append-ok :
      (start : Option ℕ) (additional id lessee b : ℕ) (s t : State L)
      → append_pending_rental_to_available_block cfg start additional id lessee s ≡ (ok b, t)
      → (find_block cfg rounds s.block_number s.pending_rentals
            (add_blocks cfg (get_or start s.block_number) additional)
          ≡ ok b)
        × (t ≡ record s {
          pending_rentals = update s.pending_rentals b (s.pending_rentals b ++ (id, lessee) ∷ []);
          events = s.events ++ rental_period_added id b ∷ [];
        })
  unfolding append_pending_rental_to_available_block
  append-ok start additional id lessee b s t e = ground arith

  -- The loop ends with a block, or it does not end.
  pub find_block-cases :
      (fuel now : ℕ) (pending : ℕ → List (ℕ × ℕ)) (block : ℕ)
      → ((b : ℕ) × (find_block cfg fuel now pending block ≡ ok b))
        ⊎ (find_block cfg fuel now pending block ≡ endless)
  unfolding find_block
  find_block-cases zero now pending block = inr refl
  find_block-cases (suc fuel) now pending block =
      elim (Bool-cases (leb (length (pending block) + 1) cfg.maximum_rentables_per_block)) [
        | inl room ↦ inl (block, rw room)
        | inr full ↦ rw full (find_block-cases fuel now pending (add_blocks cfg now 1))
      ]

  -- The block that the loop finds has room for one more rental.
  pub find_block-room :
      (fuel now : ℕ) (pending : ℕ → List (ℕ × ℕ)) (block b : ℕ)
      → find_block cfg fuel now pending block ≡ ok b
      → length (pending b) + 1 ≤ cfg.maximum_rentables_per_block
  unfolding find_block
  find_block-room zero now pending block b e = cc
  find_block-room (suc fuel) now pending block b e =
      elim (Bool-cases (leb (length (pending block) + 1) cfg.maximum_rentables_per_block)) [
        | inl room ↦ ground arith
        | inr full ↦ find_block-room fuel now pending (add_blocks cfg now 1) b (rw full at e)
      ]

  -- Funds are transferred, or the storage stays as it was.
  pub transfer_funds-cases :
      (from to amount : ℕ) (s : State L)
      → ((balances : L) × (transfer_funds cfg from to amount s
            ≡ (ok tt, record s { balances = balances })))
        ⊎ ((x : DispatchError) × (transfer_funds cfg from to amount s ≡ (err x, s)))
  unfolding transfer_funds
  transfer_funds-cases from to amount s =
      elim (Bool-cases (leb amount (cfg.free_balance s.balances from))) [
        | inl enough ↦ elim (Transfer-cases (cfg.transfer s.balances from to amount keep_alive)) [
          | inl (balances, m) ↦ inl (balances, ground arith)
          | inr (code, m) ↦ inr (currency_error code, ground arith)
        ]
        | inr short ↦ inr (module_error not_enough_balance, ground arith)
      ]

-- `unequip_collectible_from_account` succeeds: it writes the account's list without the
-- collectible, and at most events.
module _ {L : Type 0} (P : State L → Type 0) (account id : ℕ) (s : State L) where
  pub Post-unequip :
      ((evs : List Event)
        → P (record s {
          account_equips =
              update s.account_equips account
                (some (without id (get_or (s.account_equips account) [])));
          events = evs;
        }))
      → Post P (unequip_collectible_from_account account id s)
  unfolding unequip_collectible_from_account
  Post-unequip h =
      let equiped = get_or (s.account_equips account) [] in
      elim (Bool-cases (length equiped == length (without id equiped))) [
        | inl same ↦ rw same (h _)
        | inr fewer ↦ rw fewer (h _)
      ]

  -- The same before further code.
  pub Post-unequip_then :
      {B : Type 0} (k : M L B)
      → ((evs : List Event)
          → Post P (
              k (record s {
                account_equips =
                    update s.account_equips account
                      (some (without id (get_or (s.account_equips account) [])));
                events = evs;
              })))
      → Post P ((unequip_collectible_from_account account id >> k) s)
  unfolding unequip_collectible_from_account
  Post-unequip_then k h =
      let equiped = get_or (s.account_equips account) [] in
      elim (Bool-cases (length equiped == length (without id equiped))) [
        | inl same ↦ rw same (h _)
        | inr fewer ↦ rw fewer (h _)
      ]

-- `remove_lessee_from_collectible` succeeds: it frees the collectible, removes the configuration
-- and the collectible from the lessee's equipment, and deposits at most events.
module _ {L : Type 0} (lessee : ℕ) (c : Collectible) (s : State L) where
  pub remove_lessee-ok :
      (evs : List Event) × (remove_lessee_from_collectible lessee c s ≡ (
        ok (record c { lessee = none }),
        record s {
          lessee_collectibles = update₂ s.lessee_collectibles lessee c.collectible_id none;
          collectibles = update s.collectibles c.collectible_id (some (record c { lessee = none }));
          account_equips =
              update s.account_equips lessee
                (some (without c.collectible_id (get_or (s.account_equips lessee) [])));
          events = evs;
        },
      ))
  unfolding remove_lessee_from_collectible
  remove_lessee-ok =
      let equiped = get_or (s.account_equips lessee) [] in
      elim (Bool-cases (length equiped == length (without c.collectible_id equiped))) [
        | inl same ↦ (s.events, rw same)
        | inr fewer ↦ (s.events ++ collectible_unequipped lessee c.collectible_id ∷ [], rw fewer)
      ]
