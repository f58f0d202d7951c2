-- ===== src/Node/Service/Samples.antt =====
-- The theorems about node/src/service.rs at concrete configurations.
use pallet_rent.Prelude.{ℕ, ◌≢◌, refl, Bool, true, false, Option, none, some, List, [], ◌∷◌}
use pallet_rent.Node.Steps.{Action, Trace, err, hooking_up, build_network}
use pallet_rent.Node.Steps.Following.{Follows}
use pallet_rent.Node.Service.{Configuration, new_full}
use pallet_rent.Node.Service.Plans.{full_plan, new_full-Follows, new_full-hooking_up}

-- The network cannot be built, all else succeeds.
abbrev no_network : Trace → Action → Option ℕ
no_network t build_network = some 7
no_network t a = none

abbrev genesis_found : Trace → Bool
genesis_found t = true

-- An authority with one telemetry endpoint.
abbrev authority : Option (List ℕ) → Configuration
authority remote = record {
  keystore_remote = remote;
  telemetry_endpoints = some ((1 ∷ []) ∷ []);
  is_authority = true;
  offchain_worker = true;
  force_authoring = false;
  disable_grandpa = false;
}

new_full-Follows_example :
    Follows no_network genesis_found
      (full_plan (authority none))
      tt
      []
      (new_full no_network genesis_found (authority none) [])
new_full-Follows_example = new_full-Follows no_network genesis_found (authority none) [] refl

new_full-hooking_up_example :
    (new_full no_network genesis_found (authority (some (5 ∷ []))) []).0 ≢ err (hooking_up (5 ∷ []))
new_full-hooking_up_example =
    new_full-hooking_up no_network genesis_found (authority (some (5 ∷ []))) (5 ∷ []) []
