-- ===== src/Node/Service.antt =====
-- The start of a node in node/src/service.rs: which components `new_partial` and `new_full` make and
-- which tasks they spawn, in which order, under which conditions of the configuration, and what
-- happens where one of these steps fails.
pub mod Plans
mod Samples
use pallet_rent.Prelude.{
  ℕ, Bool, true, false, not, Option, none, some, List, [], ◌∷◌, if◌then◌else◌, is_none,
}
use pallet_rent.Node.Steps.{
  Action, new_telemetry, new_full_parts, spawn_telemetry, new_pool, grandpa_block_import,
  aura_slot_duration, aura_import_queue, set_remote_keystore, push_grandpa_peers_set, build_network,
  build_offchain_workers, spawn_tasks, new_proposer_factory, start_aura, spawn_aura,
  run_grandpa_voter, spawn_grandpa_voter, start_network, Trace, remote_keystores_unsupported,
  hooking_up, Answer, ok, panic, N, continue, ◌>>=◌, ◌>>◌, pure, fail, act, try, when,
}

-- The fields of `Configuration` on which the code branches.
pub record Configuration : Type 0 where
  pub keystore_remote : Option (List ℕ)
  pub telemetry_endpoints : Option (List (List ℕ))
  pub is_authority : Bool
  pub offchain_worker : Bool
  pub force_authoring : Bool
  pub disable_grandpa : Bool

-- `.filter(|x| !x.is_empty())`
abbrev pub non_empty : Option (List (List ℕ)) → Option (List (List ℕ))
non_empty none = none
non_empty (some []) = none
non_empty (some (x ∷ xs)) = some (x ∷ xs)

-- `remote_keystore`
abbrev pub remote_keystore : List ℕ → Option (Unit {0})
remote_keystore url = none

-- `fails t a` is the code of the error of the step `a` after the steps `t`, and `has_genesis t`
-- whether the client finds the genesis block.
module _ (fails : Trace → Action → Option ℕ) (has_genesis : Trace → Bool) where
  abbrev pub start_telemetry : Option (List (List ℕ)) → N Bool
  start_telemetry none = pure false
  start_telemetry (some endpoints) = try fails (new_telemetry endpoints) >> pure true

  -- `new_partial`; of the components, whether there is a telemetry is returned.
  unfoldable pub new_partial : Configuration → N Bool
  new_partial config =
      if not (is_none config.keystore_remote) then fail remote_keystores_unsupported else do
        telemetry ← start_telemetry (non_empty config.telemetry_endpoints)
        try fails (new_full_parts telemetry)
        when telemetry (act spawn_telemetry)
        act (new_pool config.is_authority)
        try fails (grandpa_block_import telemetry)
        try fails aura_slot_duration
        try fails (aura_import_queue telemetry)
        pure telemetry

  -- The remote keystore in `new_full`.
  abbrev pub hook_up : Option (List ℕ) → N (Unit {0})
  hook_up none = pure tt
  hook_up (some url) = elim (remote_keystore url) [
    | none ↦ fail (hooking_up url)
    | some k ↦ act set_remote_keystore
  ]

  -- `.expect("Genesis block exists; qed")`
  abbrev pub expect_genesis : N (Unit {0})
  expect_genesis t = if has_genesis t then (ok tt, t) else (panic, t)

  -- What `new_full` starts on a node that is an authority.
  unfoldable pub start_authoring : Configuration → Bool → N (Unit {0})
  start_authoring config telemetry = do
    act (new_proposer_factory telemetry)
    try fails aura_slot_duration
    try fails (start_aura config.force_authoring telemetry)
    act spawn_aura

  -- What `new_full` starts unless GRANDPA is disabled.
  unfoldable pub start_finality : Configuration → N (Unit {0})
  start_finality config = do
    try fails (run_grandpa_voter config.is_authority 333 512)
    act spawn_grandpa_voter

  -- `new_full`
  unfoldable pub new_full : Configuration → N (Unit {0})
  new_full config = do
    telemetry ← new_partial config
    hook_up config.keystore_remote
    expect_genesis
    act push_grandpa_peers_set
    try fails build_network
    when config.offchain_worker (act build_offchain_workers)
    try fails (spawn_tasks telemetry)
    when config.is_authority (start_authoring config telemetry)
    when (not config.disable_grandpa) (start_finality config)
    act start_network
