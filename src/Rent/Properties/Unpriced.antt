-- ===== src/Rent/Properties/Unpriced.antt =====
-- What `rent` of pallets/rent/src/lib.rs does to a collectible that was just minted.
use pallet_rent.Prelude.{
  ℕ, ◌≡◌, ◌≢◌, ◌∙◌, refl, Bool, false, some, [], arith, ◌==◌, is_none, get_or, update, update_self,
}
use pallet_rent.Rent.Types.{Config, State, duplicate_collectible, too_many_collectibles_owned}
use pallet_rent.Rent.Effects.{panic}
use pallet_rent.Rent.Rules.{Post, Post-continue, Post-elim, Post-ok_or, Post-ensure}
use pallet_rent.Rent.Helpers.{gen_collectible_id}
use pallet_rent.Rent.Internal.{minted, try_push, do_mint}
use pallet_rent.Rent.Calls.{signed, mint, rent}
use pallet_rent.Rent.Verdict.{without_value}
use pallet_rent.Rent.Verdict.Stages.Funds.{rent-Staged}

module _ {L : Type 0} (cfg : Config L) (a b : ℕ) (other : a ≢ b) (blocks : ℕ)
    (recurring : Bool) where
  rent-minted :
      (id : ℕ) (t : State L)
      → t.collectibles id ≡ some (minted id a)
      → without_value (rent cfg (signed b) id blocks recurring t).0 ≡ panic
  rent-minted id t known =
      let stranger : (a == b) ≡ false = ground (arith, other) in
      rent-Staged cfg t b id blocks recurring ∙ rw (known, stranger) refl

  -- Wherever `mint` by `a` succeeds, `rent` of the new collectible by any other account panics,
  -- whatever the number of blocks and whether it is to be recurring: nothing asks for an offer.
  pub mint-then-rent :
      (s : State L)
      → Post
          (λ t.
            without_value (rent cfg (signed b) (gen_collectible_id cfg s) blocks recurring t).0
            ≡ panic)
          (mint cfg (signed a) s)
  unfolding mint do_mint
  mint-then-rent s =
      let id = gen_collectible_id cfg s in
      let owned = get_or (s.lessor_collectibles a) [] in
      let P =
        λ (t : State L). without_value (rent cfg (signed b) id blocks recurring t).0 ≡ panic in
      let t = record s { collectibles = update s.collectibles id (some (minted id a)) } in
      Post-continue P (do_mint cfg a id s) _ λ x v done.
        Post-elim P (do_mint cfg a id s) x v
          (Post-ensure P (is_none (s.collectibles id)) duplicate_collectible _ s λ new.
            Post-ok_or P (try_push cfg owned id) too_many_collectibles_owned _ t
              λ ids pushed. rent-minted id _ (update_self s.collectibles id (some (minted id a))))
          done
