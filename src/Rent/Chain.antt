-- ===== src/Rent/Chain.antt =====
-- The life of the pallet's storage: calls, blocks and what other pallets do.
--
-- A call of a dispatchable function that returns an error leaves no trace, since FRAME runs every
-- dispatchable function in a storage layer of its own; a call that panics, or that does not end, is
-- in no block. A block begins with its number and the hook `on_initialize`. Between the calls the
-- balances and the extrinsic index may change in any way.
pub mod Reachable
pub mod Origins
pub mod SameRentals
use pallet_rent.Prelude.{ℕ, ◌+◌, ◌≡◌, Bool, none, [], Option}
use pallet_rent.Rent.Types.{Config, State}
use pallet_rent.Rent.Effects.{DispatchError, ok, err, M}
use pallet_rent.Rent.Calls.{Origin}
use pallet_rent.Rent.Calls

-- The calls of `#[pallet::call]`, in the order of their indices.
pub data Call : Type 0 where
  mint : Call
  burn : (collectible_id : ℕ) → Call
  set_rentable :
      (collectible_id price_per_block minimum_rental_period maximum_rental_period : ℕ) → Call
  rent : (collectible_id blocks : ℕ) (recurring : Bool) → Call
  set_unrentable : (collectible_id : ℕ) → Call
  set_recurring : (collectible_id : ℕ) (recurring : Bool) → Call
  extend_rent : (collectible_id blocks : ℕ) → Call
  equip_collectible : (collectible_id : ℕ) → Call
  unequip_collectible : (collectible_id : ℕ) → Call

module _ {L : Type 0} (cfg : Config L) where
  unfoldable pub dispatch : Call → Origin → M L (Unit {0})
  dispatch mint origin = Calls.mint cfg origin
  dispatch (burn id) origin = Calls.burn cfg origin id
  dispatch (set_rentable id price minimum maximum) origin =
      Calls.set_rentable cfg origin id price minimum maximum
  dispatch (rent id blocks recurring) origin = Calls.rent cfg origin id blocks recurring
  dispatch (set_unrentable id) origin = Calls.set_unrentable cfg origin id
  dispatch (set_recurring id recurring) origin = Calls.set_recurring cfg origin id recurring
  dispatch (extend_rent id blocks) origin = Calls.extend_rent cfg origin id blocks
  dispatch (equip_collectible id) origin = Calls.equip_collectible cfg origin id
  dispatch (unequip_collectible id) origin = Calls.unequip_collectible cfg origin id

  pub data Step (s : State L) : State L → Type 0 where
    called :
        {t : State L} (call : Call) (origin : Origin)
        → dispatch call origin s ≡ (ok tt, t)
        → Step s t
    refused :
        (call : Call) (origin : Origin) (x : DispatchError) (t : State L)
        → dispatch call origin s ≡ (err x, t)
        → Step s s
    block :
        {t : State L}
        → Calls.on_initialize cfg
            (s.block_number + 1)
            (record s { block_number = s.block_number + 1; extrinsic_index = none })
          ≡ (ok tt, t)
        → Step s t
    elsewhere : (l : L) (i : Option ℕ) → Step s (record s { balances = l; extrinsic_index = i })

  pub data Reach (s : State L) : State L → Type 0 where
    here : Reach s s
    next : {t u : State L} → Reach s t → Step t u → Reach s u

-- The storage of the genesis block, in which every storage item of the pallet is empty.
abbrev pub genesis : {L : Type 0} → L → State L
genesis l = record {
  block_number = 0;
  extrinsic_index = none;
  balances = l;
  collectibles = λ id. none;
  lessor_collectibles = λ a. none;
  lessee_collectibles = λ a id. none;
  rentable_collectibles = [];
  pending_rentals = λ b. [];
  account_equips = λ a. none;
  events = [];
}
