-- ===== src/Rent/Helpers/Failing.antt =====
-- Helper functions of pallets/rent/src/lib.rs that return no error.
use pallet_rent.Prelude.{ℕ, inl, inr, [], Option, get_or, without, length, ◌==◌, Bool-cases}
use pallet_rent.Rent.Types.{Config, State}
use pallet_rent.Rent.Effects.{DispatchError, M, ◌>>◌}
use pallet_rent.Rent.Failures.{Fails}
use pallet_rent.Rent.Helpers.{
  unequip_collectible_from_account, append_pending_rental_to_available_block, add_blocks, rounds,
}
use pallet_rent.Rent.Helpers.Results.{find_block-cases}

module _ {L : Type 0} (Q : DispatchError → State L → Type 0) where
  -- `unequip_collectible_from_account` returns no error.
  pub Fails-unequip_then :
      {B : Type 0} (account id : ℕ) (k : M L B) (s : State L)
      → ((t : State L) → Fails Q (k t))
      → Fails Q ((unequip_collectible_from_account account id >> k) s)
  unfolding unequip_collectible_from_account
  Fails-unequip_then account id k s h =
      let equiped = get_or (s.account_equips account) [] in
      elim (Bool-cases (length equiped == length (without id equiped))) [
        | inl same ↦ rw same (h _)
        | inr fewer ↦ rw fewer (h _)
      ]

  pub Fails-unequip :
      (account id : ℕ) (s : State L) → Fails Q (unequip_collectible_from_account account id s)
  unfolding unequip_collectible_from_account
  Fails-unequip account id s =
      let equiped = get_or (s.account_equips account) [] in
      elim (Bool-cases (length equiped == length (without id equiped))) [
        | inl same ↦ rw same tt
        | inr fewer ↦ rw fewer tt
      ]

  -- `append_pending_rental_to_available_block` returns no error.
  pub Fails-append :
      (cfg : Config L) (start : Option ℕ) (additional id lessee : ℕ) (s : State L)
      → Fails Q (append_pending_rental_to_available_block cfg start additional id lessee s)
  unfolding append_pending_rental_to_available_block
  Fails-append cfg start additional id lessee s =
      elim (find_block-cases cfg rounds s.block_number s.pending_rentals
        (add_blocks cfg (get_or start s.block_number) additional)) [
          | inl (b, found) ↦ rw found tt
          | inr lost ↦ rw lost tt
        ]
