-- ===== src/Node/Command/Samples.antt =====
-- The theorems about node/src/command.rs at concrete arguments.
use pallet_rent.Prelude.{ℕ, ◌≡◌, Bool, true, false, Option, none, some, [], ◌∷◌}
use pallet_rent.Node.Steps.{Action, Trace, aura_slot_duration}
use pallet_rent.Node.Service.{Configuration}
use pallet_rent.Node.Command.{Subcommand, revert, Features, run}
use pallet_rent.Node.Command.Offline.{Offline, run-Quiet}

-- The slot duration cannot be read, all else succeeds.
abbrev no_slots : Trace → Action → Option ℕ
no_slots t aura_slot_duration = some 3
no_slots t a = none

abbrev all_succeed : Trace → Action → Option ℕ
all_succeed t a = none

abbrev genesis_found : Trace → Bool
genesis_found t = true

abbrev release : Features
release = record { runtime_benchmarks = false; try_runtime_enabled = false }

abbrev config_of : Option Subcommand → Configuration
config_of c = record {
  keystore_remote = none;
  telemetry_endpoints = some ((1 ∷ []) ∷ []);
  is_authority = true;
  offchain_worker = true;
  force_authoring = false;
  disable_grandpa = false;
}

run-Quiet_example :
    (did : Trace) × ((run no_slots genesis_found release config_of (some revert) []).1 ≡ did)
    × Offline did
run-Quiet_example = run-Quiet no_slots genesis_found release config_of revert []
