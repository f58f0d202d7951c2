-- ===== src/Rent/Helpers.antt =====
-- The helper functions of pallets/rent/src/lib.rs, and `convert_to_primitive` of
-- pallets/rent/src/utils.rs.
--
-- Sums of block numbers and products of balances wrap around at the width of their type, as they
-- do in a release build, which is what the runtime's Wasm binary is.
pub mod Results
pub mod Search
pub mod Failing
use pallet_rent.Prelude.{
  ℕ, zero, suc, ◌+◌, ◌*◌, ◌%◌, ◌^◌, not, Option, none, some, List, [], ◌∷◌, ◌++◌, if◌then◌else◌,
  ltb, leb, ◌==◌, get_or, length, without, update, update₂,
}
use pallet_rent.Rent.Types.{
  keep_alive, moved, refused, Config, Collectible, collectible_unequipped, rental_period_added,
  no_collectible, no_lessee, not_lessor, not_lessee, not_enough_balance, State,
}
use pallet_rent.Rent.Effects.{
  module_error, currency_error, Outcome, ok, err, panic, endless, M, pure, ok_or, ensure, gets,
  modify, deposit_event, when, ◌>>=◌, ◌>>◌,
}

-- Rounds of the loop in `append_pending_rental_to_available_block`: the second round tries the same
-- block as every later one.
abbrev pub rounds : ℕ
rounds = 2

-- 2 ^ 32, the bound of a `u32`.
abbrev pub u32_bound : ℕ
u32_bound = 4294967296

-- `convert_to_primitive::<_, u32>(value).unwrap()`, which panics inside where the value is too big.
unfoldable pub convert_to_primitive : ℕ → Outcome ℕ
convert_to_primitive value = if ltb value u32_bound then ok value else panic

-- The subject of the randomness, the bytes of "collectible_id".
abbrev pub random_subject : List ℕ
random_subject =
    b'c' ∷ b'o' ∷ b'l' ∷ b'l' ∷ b'e' ∷ b'c' ∷ b't' ∷ b'i' ∷ b'b' ∷ b'l' ∷ b'e' ∷ b'_' ∷ b'i' ∷ b'd'
    ∷ []

-- `ensure_user_is_lessee`
unfoldable pub ensure_user_is_lessee : ℕ → Collectible → Outcome (Unit {0})
ensure_user_is_lessee user collectible = elim collectible.lessee [
  | none ↦ err (module_error no_lessee)
  | some lessee ↦ if lessee == user then ok tt else err (module_error not_lessee)
]

-- `ensure_user_is_lessor`
unfoldable pub ensure_user_is_lessor : ℕ → Collectible → Outcome (Unit {0})
ensure_user_is_lessor user collectible =
    if collectible.lessor == user then ok tt else err (module_error not_lessor)

-- `fetch_collectible`
unfoldable pub fetch_collectible : {L : Type 0} → ℕ → M L Collectible
fetch_collectible id s = ok_or (s.collectibles id) no_collectible s

-- `unequip_collectible_from_account`
unfoldable pub unequip_collectible_from_account : {L : Type 0} → ℕ → ℕ → M L (Unit {0})
unequip_collectible_from_account account id = do
  equiped ← gets λ s. get_or (s.account_equips account) []
  modify
      λ s. record s { account_equips = update s.account_equips account (some (without id equiped)) }
  when (not (length equiped == length (without id equiped)))
      (deposit_event (collectible_unequipped account id))

-- `remove_lessee_from_collectible`; the collectible with its lessee removed is returned, for the
-- caller's mutable reference.
unfoldable pub remove_lessee_from_collectible : {L : Type 0} → ℕ → Collectible → M L Collectible
unfolding unequip_collectible_from_account
remove_lessee_from_collectible lessee collectible = do
  let id = collectible.collectible_id
  modify λ s. record s { lessee_collectibles = update₂ s.lessee_collectibles lessee id none }
  let freed = record collectible { lessee = none }
  modify λ s. record s { collectibles = update s.collectibles id (some freed) }
  unequip_collectible_from_account lessee id
  pure freed

module _ {L : Type 0} (cfg : Config L) where
  -- `starting_block_number + additional_rental_blocks.into()`
  abbrev pub add_blocks : ℕ → ℕ → ℕ
  add_blocks a b = (a + b) % 2 ^ cfg.block_bits

  -- The product of a price per block and a number of blocks, as balances.
  abbrev pub mul_balance : ℕ → ℕ → ℕ
  mul_balance price blocks = (price * blocks) % 2 ^ cfg.balance_bits

  -- `gen_collectible_id`
  unfoldable pub gen_collectible_id : State L → ℕ
  gen_collectible_id s = cfg.blake2_128 (
      cfg.encode (cfg.random s.block_number random_subject).0 (get_or s.extrinsic_index 0)
        s.block_number)

  -- The `while` loop of `append_pending_rental_to_available_block`: the block that is tried, and on
  -- a full block the one after the current block, `now`.
  unfoldable pub find_block : ℕ → ℕ → (ℕ → List (ℕ × ℕ)) → ℕ → Outcome ℕ
  find_block zero now pending block_number = endless
  find_block (suc fuel) now pending block_number =
      let retry = find_block fuel now pending (add_blocks now 1) in
      if leb (length (pending block_number) + 1) cfg.maximum_rentables_per_block
      then ok block_number
      else retry

  -- `append_pending_rental_to_available_block`
  unfoldable pub append_pending_rental_to_available_block : Option ℕ → ℕ → ℕ → ℕ → M L ℕ
  append_pending_rental_to_available_block starting_block additional id lessee = do
    now ← gets λ s. s.block_number
    let first = add_blocks (get_or starting_block now) additional
    block_number ← λ s. (find_block rounds now s.pending_rentals first, s)
    modify λ s. record s {
      pending_rentals =
          update s.pending_rentals block_number
            (s.pending_rentals block_number ++ (id, lessee) ∷ []);
    }
    deposit_event (rental_period_added id block_number)
    pure block_number

  -- `transfer_funds`
  unfoldable pub transfer_funds : ℕ → ℕ → ℕ → M L (Unit {0})
  transfer_funds from to amount = do
    balance ← gets λ s. cfg.free_balance s.balances from
    ensure (leb amount balance) not_enough_balance
    λ s. elim (cfg.transfer s.balances from to amount keep_alive) [
      | moved balances ↦ (ok tt, record s { balances = balances })
      | refused code ↦ (err (currency_error code), s)
    ]
