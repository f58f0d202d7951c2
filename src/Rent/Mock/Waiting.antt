-- ===== src/Rent/Mock/Waiting.antt =====
-- Runs of blocks under `run_to_block` of pallets/rent/src/mock.rs while a rental waits for the block in
-- which it is due.
use pallet_rent.Prelude.{
  ℕ, suc, zero, ◌+◌, ◌≡◌, ◌≢◌, ◌∙◌, true, not, ◌||◌, some, arith, update_same,
}
use pallet_rent.Rent.Types.{Config, Collectible, RentalPeriodConfig, State}
use pallet_rent.Rent.Effects.{Outcome, ok, err, panic, endless}
use pallet_rent.Rent.Rules.{Post, Post-continue, Post-elim, Runs, Runs-map, Runs-and, Runs-and_and}
use pallet_rent.Rent.Internal.{process_rentals, do_process_rental_periods}
use pallet_rent.Rent.Calls.{on_initialize}
use pallet_rent.Rent.Invariant.Entries.{entries}
use pallet_rent.Rent.Invariant.CallLeases.{Leased}
use pallet_rent.Rent.Invariant.Leases.{entries-elsewhere}
use pallet_rent.Rent.Invariant.ProcessKept.{WellFormed, frame-Kept, on_initialize-WellFormed}
use pallet_rent.Rent.Properties.Ending.{Same, Ended}
use pallet_rent.Rent.Invariant.Occurrences.{Occurs}
use pallet_rent.Rent.Properties.Expiry.{process_rentals-Same, on_initialize-Ended}
use pallet_rent.Rent.Mock.{Clocked, set_timestamp, go_on, next_block, run_blocks}
use pallet_rent.Rent.Mock.Kept.{Waits, on_initialize-Waits}

-- The run does not panic and returns no error, and what holds if it returns.
abbrev pub Reaches : {L : Type 0} → (Clocked L → Type 0) → Outcome (Unit {0}) × Clocked L → Type 0
Reaches P (ok _, m) = P m
Reaches P (err _, m) = ⊥
Reaches P (panic, m) = ⊥
Reaches P (endless, m) = Unit

pub Reaches-map :
    {L : Type 0} (Q P : Clocked L → Type 0) (r : Outcome (Unit {0}) × Clocked L)
    → ((m : Clocked L) → Q m → P m)
    → Reaches Q r
    → Reaches P r
Reaches-map Q P (ok u, m) f h = f m h
Reaches-map Q P (err x, m) f h = h
Reaches-map Q P (panic, m) f h = h
Reaches-map Q P (endless, m) f h = tt

set_timestamp-Reaches :
    {L : Type 0} (P : State L → Type 0) (m : Clocked L) (r : Outcome (Unit {0}) × State L)
    → Runs P r
    → Reaches (λ v. P v.chain) (set_timestamp m r)
set_timestamp-Reaches P m (ok u, s) h = h
set_timestamp-Reaches P m (err x, s) h = h
set_timestamp-Reaches P m (panic, s) h = h
set_timestamp-Reaches P m (endless, s) h = tt

go_on-Reaches :
    {L : Type 0} (Q P : Clocked L → Type 0) (k : Clocked L → Outcome (Unit {0}) × Clocked L)
    (r : Outcome (Unit {0}) × Clocked L)
    → Reaches Q r
    → ((m : Clocked L) → Q m → Reaches P (k m))
    → Reaches P (go_on k r)
go_on-Reaches Q P k (ok u, m) q h = h m q
go_on-Reaches Q P k (err x, m) q h = q
go_on-Reaches Q P k (panic, m) q h = q
go_on-Reaches Q P k (endless, m) q h = tt

module _ {L : Type 0} (cfg : Config L) where
  on_initialize-Same :
      (n j : ℕ) (s : State L)
      → Leased s
      → entries j (s.pending_rentals n) ≡ 0
      → Post (Same j s) (on_initialize cfg n s)
  unfolding on_initialize do_process_rental_periods
  on_initialize-Same n j s inv none_of =
      Post-continue (Same j s) (process_rentals cfg (s.pending_rentals n) s) _ λ u t e.
        let same =
          Post-elim (Same j s) (process_rentals cfg (s.pending_rentals n) s) u t
            (process_rentals-Same cfg n (s.pending_rentals n) j s
              (rw (update_same s.pending_rentals n) inv) none_of)
            e in
        record { stored = same.stored; configured = same.configured; equipped = same.equipped }

  next_block-Reaches :
      (P : State L → Type 0) (m : Clocked L)
      → let b = m.chain.block_number + 1 in
        Runs P (on_initialize cfg b (record m.chain { block_number = b }))
        → Reaches (λ v. P v.chain) (next_block cfg m)
  unfolding next_block
  next_block-Reaches P m h = set_timestamp-Reaches P m _ h

  module _ (id a : ℕ) (c : Collectible) (r : RentalPeriodConfig) where
    -- The rental waits for its block.
    pub record Waiting (s : State L) : Type 0 where
      pub sound : WellFormed cfg s
      pub known : s.collectibles id ≡ some c
      pub rented : s.lessee_collectibles a id ≡ some r
      pub waiting : Occurs id a (s.pending_rentals r.next_rent_block)

    forward :
        (s : State L)
        → WellFormed cfg s
        → WellFormed cfg (record s { block_number = s.block_number + 1 })
    forward s w = record {
      leased = w.leased;
      kept = frame-Kept cfg s s.balances s.events (s.block_number + 1) s.extrinsic_index w.kept;
    }

    -- A block in which the rental is not due.
    pass :
        (s : State L)
        → Waiting s
        → s.block_number + 1 ≢ r.next_rent_block
        → Runs
            (λ t. (t.block_number ≡ s.block_number + 1) × Waiting t)
            (on_initialize cfg
              (s.block_number + 1)
              (record s { block_number = s.block_number + 1 }))
    pass s w other =
        let b = s.block_number + 1 in
        let u = record s { block_number = b } in
        let sound = forward s w.sound in
        let elsewhere = entries-elsewhere w.sound.leased id a r w.rented b other in
        Runs-map _ _ (on_initialize cfg b u)
          (λ t h. (
            h.2.at,
            record {
              sound = h.0;
              known = h.1.stored ∙ w.known;
              rented = h.1.configured a ∙ w.rented;
              waiting = h.2.waits id a w.waiting;
            },
          ))
          (Runs-and_and (WellFormed cfg) (Same id u) (Waits cfg r.next_rent_block u)
            (on_initialize cfg b u) (sound_after b u sound)
            (on_initialize-Same b id u sound.leased elsewhere)
            (on_initialize-Waits cfg b r.next_rent_block u other))
      where
        sound_after :
            (b : ℕ) (u : State L) → WellFormed cfg u → Runs (WellFormed cfg) (on_initialize cfg b u)
        sound_after b u h =
            Runs-map _ _ (on_initialize cfg b u) (λ t k. k.0) (on_initialize-WellFormed cfg b u h)

    -- From any block before the one in which it is due, to that one.
    pub run_blocks-Ended :
        (k : ℕ) (m : Clocked L)
        → (not c.rentable || not r.recurring) ≡ true
        → Waiting m.chain
        → m.chain.block_number + suc k ≡ r.next_rent_block
        → Reaches (λ v. Ended id a c v.chain) (run_blocks cfg (suc k) m)
    unfolding run_blocks
    run_blocks-Ended zero m over w due =
        let s = m.chain in
        let b = s.block_number + 1 in
        let u = record s { block_number = b } in
        let sound = forward s w.sound in
        let here : r.next_rent_block ≡ b = omega (arith, due) in
        go_on-Reaches (λ v. Ended id a c v.chain) (λ v. Ended id a c v.chain) (run_blocks cfg zero)
          (next_block cfg m)
          (next_block-Reaches (Ended id a c) m (
            Runs-map _ _ (on_initialize cfg b u) (λ t h. h.1)
              (Runs-and _ (Ended id a c) (on_initialize cfg b u)
                (on_initialize-WellFormed cfg b u sound)
                (on_initialize-Ended cfg b id a c r u sound.leased (rw here at w.waiting) w.known
                  w.rented over))))
          λ v h. h
    run_blocks-Ended (suc k) m over w due =
        let s = m.chain in
        go_on-Reaches (λ v. (v.chain.block_number ≡ s.block_number + 1) × Waiting v.chain)
          (λ v. Ended id a c v.chain) (run_blocks cfg (suc k)) (next_block cfg m)
          (next_block-Reaches (λ t. (t.block_number ≡ s.block_number + 1) × Waiting t) m
            (pass s w (λ e. omega (arith, due, e))))
          λ v h. run_blocks-Ended k v over h.1 (omega (arith, due, h.0))
