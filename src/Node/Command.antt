-- ===== src/Node/Command.antt =====
-- The command line of the node: the subcommands of node/src/cli.rs, and `run` of node/src/command.rs, which
-- selects what is executed for each.
--
-- A runner executes its closure with the configuration that it was created with, as documented for
-- `sync_run`, `async_run` and `run_node_until_exit`; that configuration is a parameter. The run of
-- a library's command is one step.
pub mod Offline
mod Samples
use pallet_rent.Prelude.{ℕ, Bool, not, Option, none, some, if◌then◌else◌}
use pallet_rent.Node.Steps.{
  Action, create_runner, run_command, inherent_data, new_task_manager, wait_for_exit, Trace,
  benchmarking_disabled, storage_benchmarking_disabled, try_runtime_disabled, N, ◌>>=◌, ◌>>◌, fail,
  try,
}
use pallet_rent.Node.Service.{Configuration, new_partial, new_full}

-- `BenchmarkCmd`, of which `run` knows these.
pub data BenchmarkCmd : Type 0 where
  pallet : BenchmarkCmd
  block : BenchmarkCmd
  storage : BenchmarkCmd
  overhead : BenchmarkCmd
  extrinsic : BenchmarkCmd
  machine : BenchmarkCmd

-- `Subcommand`, without the arguments of the libraries' commands.
pub data Subcommand : Type 0 where
  key : Subcommand
  build_spec : Subcommand
  check_block : Subcommand
  export_blocks : Subcommand
  export_state : Subcommand
  import_blocks : Subcommand
  purge_chain : Subcommand
  revert : Subcommand
  benchmark : BenchmarkCmd → Subcommand
  try_runtime : Subcommand
  chain_info : Subcommand

-- The cargo features with which the node was built.
pub record Features : Type 0 where
  pub runtime_benchmarks : Bool
  pub try_runtime_enabled : Bool

module _ (fails : Trace → Action → Option ℕ) (has_genesis : Trace → Bool) (features : Features)
    (config_of : Option Subcommand → Configuration) where
  -- A command that needs the parts that `new_partial` makes.
  abbrev with_partial : Subcommand → N (Unit {0}) → N (Unit {0})
  with_partial c m = do
    try fails create_runner
    telemetry ← new_partial fails has_genesis (config_of (some c))
    m

  -- The closure of the arm for benchmarks.
  unfoldable pub run_benchmark : BenchmarkCmd → N (Unit {0})
  run_benchmark pallet =
      if not features.runtime_benchmarks then fail benchmarking_disabled else try fails run_command
  run_benchmark block = do
    telemetry ← new_partial fails has_genesis (config_of (some (benchmark block)))
    try fails run_command
  run_benchmark storage =
      if not features.runtime_benchmarks then fail storage_benchmarking_disabled else do
        telemetry ← new_partial fails has_genesis (config_of (some (benchmark storage)))
        try fails run_command
  run_benchmark overhead = do
    telemetry ← new_partial fails has_genesis (config_of (some (benchmark overhead)))
    try fails inherent_data
    try fails run_command
  run_benchmark extrinsic = do
    telemetry ← new_partial fails has_genesis (config_of (some (benchmark extrinsic)))
    try fails inherent_data
    try fails run_command
  run_benchmark machine = try fails run_command

  unfoldable pub run_subcommand : Subcommand → N (Unit {0})
  run_subcommand key = try fails run_command
  run_subcommand build_spec = try fails create_runner >> try fails run_command
  run_subcommand check_block = with_partial check_block (try fails run_command)
  run_subcommand export_blocks = with_partial export_blocks (try fails run_command)
  run_subcommand export_state = with_partial export_state (try fails run_command)
  run_subcommand import_blocks = with_partial import_blocks (try fails run_command)
  run_subcommand purge_chain = try fails create_runner >> try fails run_command
  run_subcommand revert = with_partial revert (try fails run_command)
  run_subcommand (benchmark b) = try fails create_runner >> run_benchmark b
  run_subcommand try_runtime =
      if not features.try_runtime_enabled
      then fail try_runtime_disabled
      else do try fails create_runner; try fails new_task_manager; try fails run_command
  run_subcommand chain_info = try fails create_runner >> try fails run_command

  -- `run`, after the arguments are parsed.
  unfoldable pub run : Option Subcommand → N (Unit {0})
  run (some c) = run_subcommand c
  run none = do
    try fails create_runner
    new_full fails has_genesis (config_of none)
    try fails wait_for_exit
