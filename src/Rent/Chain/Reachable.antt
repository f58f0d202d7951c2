-- ===== src/Rent/Chain/Reachable.antt =====
-- Every storage that the calls and blocks of pallets/rent/src/lib.rs reach is well-formed.
use pallet_rent.Prelude.{ℕ, ◌+◌, ◌≡◌, refl, [], none, Option, arith}
use pallet_rent.Rent.Types.{Config, State}
use pallet_rent.Rent.Effects.{Outcome, ok, err, panic, endless}
use pallet_rent.Rent.Rules.{Post, Post-elim, Runs-elim}
use pallet_rent.Rent.Calls.{Origin}
use pallet_rent.Rent.Calls
use pallet_rent.Rent.Invariant.CallLeases
use pallet_rent.Rent.Invariant.RentLeases
use pallet_rent.Rent.Invariant.CallHoldings
use pallet_rent.Rent.Invariant.Bounds
use pallet_rent.Rent.Invariant.CallBounds
use pallet_rent.Rent.Invariant.ProcessKept.{WellFormed, on_initialize-WellFormed, frame-Kept}
use pallet_rent.Rent.Chain.{
  Call, mint, burn, set_rentable, rent, set_unrentable, set_recurring, extend_rent,
  equip_collectible, unequip_collectible, dispatch, Step, called, refused, block, elsewhere, Reach,
  here, next, genesis,
}

module _ {L : Type 0} (cfg : Config L) where
  -- The three parts of well-formedness, for one call.
  assemble :
      (s : State L) (r : Outcome (Unit {0}) × State L)
      → Post CallLeases.Leased r
      → Post CallHoldings.Held r
      → Post (Bounds.Bounded cfg) r
      → Post (WellFormed cfg) r
  assemble s (ok u, t) a b c = record { leased = a; kept = record { held = b; bounded = c } }
  assemble s (err x, t) a b c = tt
  assemble s (panic, t) a b c = tt
  assemble s (endless, t) a b c = tt

  -- A successful call of a dispatchable function, by any origin, keeps the storage well-formed.
  pub dispatch-WellFormed :
      (call : Call) (origin : Origin) (s : State L)
      → WellFormed cfg s
      → Post (WellFormed cfg) (dispatch cfg call origin s)
  unfolding dispatch
  dispatch-WellFormed mint o s w =
      assemble s _ (CallLeases.mint-Leased cfg s w.leased o)
        (CallHoldings.mint-Held cfg s w.kept.held o)
        (CallBounds.mint-Bounded cfg s w.kept.bounded o)
  dispatch-WellFormed (burn id) o s w =
      assemble s _ (CallLeases.burn-Leased cfg s w.leased o id)
        (CallHoldings.burn-Held cfg s w.kept.held o id)
        (CallBounds.burn-Bounded cfg s w.kept.bounded o id)
  dispatch-WellFormed (set_rentable id p m n) o s w =
      assemble s _ (CallLeases.set_rentable-Leased cfg s w.leased o id p m n)
        (CallHoldings.set_rentable-Held cfg s w.kept.held o id p m n)
        (CallBounds.set_rentable-Bounded cfg s w.kept.bounded o id p m n)
  dispatch-WellFormed (rent id b r) o s w =
      assemble s _ (RentLeases.rent-Leased cfg s w.leased o id b r)
        (CallHoldings.rent-Held cfg s w.kept.held o id b r)
        (CallBounds.rent-Bounded cfg s w.kept.bounded o id b r)
  dispatch-WellFormed (set_unrentable id) o s w =
      assemble s _ (CallLeases.set_unrentable-Leased cfg s w.leased o id)
        (CallHoldings.set_unrentable-Held cfg s w.kept.held o id)
        (CallBounds.set_unrentable-Bounded cfg s w.kept.bounded o id)
  dispatch-WellFormed (set_recurring id r) o s w =
      assemble s _ (CallLeases.set_recurring-Leased cfg s w.leased o id r)
        (CallHoldings.set_recurring-Held cfg s w.kept.held o id r)
        (CallBounds.set_recurring-Bounded cfg s w.kept.bounded o id r)
  dispatch-WellFormed (extend_rent id b) o s w =
      assemble s _ (RentLeases.extend_rent-Leased cfg s w.leased o id b)
        (CallHoldings.extend_rent-Held cfg s w.kept.held o id b)
        (CallBounds.extend_rent-Bounded cfg s w.kept.bounded o id b)
  dispatch-WellFormed (equip_collectible id) o s w =
      assemble s _ (CallLeases.equip_collectible-Leased cfg s w.leased o id)
        (CallHoldings.equip_collectible-Held cfg s w.kept.held o id)
        (CallBounds.equip_collectible-Bounded cfg s w.kept.bounded o id)
  dispatch-WellFormed (unequip_collectible id) o s w =
      assemble s _ (CallLeases.unequip_collectible-Leased cfg s w.leased o id)
        (CallHoldings.unequip_collectible-Held cfg s w.kept.held o id)
        (CallBounds.unequip_collectible-Bounded cfg s w.kept.bounded o id)

  frame-WellFormed :
      (s : State L) (l : L) (now : ℕ) (i : Option ℕ)
      → WellFormed cfg s
      → WellFormed cfg (record s { balances = l; block_number = now; extrinsic_index = i })
  frame-WellFormed s l now i w = record {
    leased = w.leased;
    kept = frame-Kept cfg s l s.events now i w.kept;
  }

  pub Step-WellFormed : {s t : State L} → Step cfg s t → WellFormed cfg s → WellFormed cfg t
  Step-WellFormed {s} {t} (called call origin e) w =
      Post-elim (WellFormed cfg) (dispatch cfg call origin s) tt t
        (dispatch-WellFormed call origin s w) e
  Step-WellFormed (refused call origin x t e) w = w
  Step-WellFormed {s} {t} (block e) w =
      let n = s.block_number + 1 in
      let u = record s { block_number = n; extrinsic_index = none } in
      (Runs-elim (λ v. WellFormed cfg v × (v.pending_rentals n ≡ [])) (Calls.on_initialize cfg n u)
        tt t (on_initialize-WellFormed cfg n u (frame-WellFormed s s.balances n none w)) e).0
  Step-WellFormed {s} (elsewhere l i) w = frame-WellFormed s l s.block_number i w

  pub genesis-WellFormed : (l : L) → WellFormed cfg (genesis l)
  genesis-WellFormed l = record {
    leased = record {
      fits = λ id c e. absurd (cc);
      rented = λ a id h. absurd (cc);
      leased = λ a id h. absurd (cc);
      pending = λ b. tt;
      distinct = λ b id. omega arith;
    };
    kept = record {
      held = record {
        owned = record { keyed = λ id c e. absurd (cc); owned = λ a id. refl };
        listed = record { listed = λ id h. absurd (cc) };
        entitled = record { allowed = λ a id h. absurd (omega arith) };
      };
      bounded = record {
        lessors = λ a. omega arith;
        equips = λ a. omega arith;
        rentables = omega arith;
        pending = λ b. omega arith;
      };
    };
  }

  Reach-WellFormed : {s t : State L} → WellFormed cfg s → Reach cfg s t → WellFormed cfg t
  Reach-WellFormed w here = w
  Reach-WellFormed w (next r step) = Step-WellFormed step (Reach-WellFormed w r)

  -- Every storage that calls, blocks and changes of the balances reach from the genesis block is
  -- well-formed: the rentals, the lessees and the pending entries agree, each account's list holds
  -- exactly the collectibles that it owns, a rentable collectible is in the list of rentable ids,
  -- only entitled accounts have a collectible equipped, and no list is longer than its bound.
  pub genesis-Reach-WellFormed : (l : L) (t : State L) → Reach cfg (genesis l) t → WellFormed cfg t
  genesis-Reach-WellFormed l t r = Reach-WellFormed (genesis-WellFormed l) r
