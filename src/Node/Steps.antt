-- ===== src/Node/Steps.antt =====
-- The steps that the node takes when it starts, in node/src/service.rs and node/src/command.rs, and the
-- monad in which these files are written: what was done so far, and an answer, an error or a panic.
--
-- The components are those of other projects. A step is an action, which the model records; whether
-- it succeeds is a parameter, which may depend on all that was done before. Constructors of values
-- that start nothing (the executor, the chain selection, the warp sync provider, the parameters'
-- structs) are no steps.
pub mod Following
use pallet_rent.Prelude.{ℕ, Bool, Option, none, some, List, [], ◌∷◌, ◌++◌, if◌then◌else◌}

-- The steps, with what the code makes depend on the configuration.
pub data Action : Type 0 where
  -- `TelemetryWorker::new(16)?` and the registration of the endpoints with it.
  new_telemetry : (endpoints : List (List ℕ)) → Action
  new_full_parts : (telemetry : Bool) → Action
  spawn_telemetry : Action
  new_pool : (is_authority : Bool) → Action
  grandpa_block_import : (telemetry : Bool) → Action
  aura_slot_duration : Action
  aura_import_queue : (telemetry : Bool) → Action
  set_remote_keystore : Action
  push_grandpa_peers_set : Action
  build_network : Action
  build_offchain_workers : Action
  spawn_tasks : (telemetry : Bool) → Action
  new_proposer_factory : (telemetry : Bool) → Action
  start_aura : (force_authoring telemetry : Bool) → Action
  spawn_aura : Action
  run_grandpa_voter : (keystore : Bool) (gossip_millis justification_period : ℕ) → Action
  spawn_grandpa_voter : Action
  start_network : Action
  create_runner : Action
  run_command : Action
  inherent_data : Action
  new_task_manager : Action
  wait_for_exit : Action

abbrev pub Trace : Type 0
Trace = List Action

-- The errors: two of node/src/service.rs, three of node/src/command.rs, and those of the libraries by
-- a code.
pub data Failure : Type 0 where
  remote_keystores_unsupported : Failure
  hooking_up : (url : List ℕ) → Failure
  benchmarking_disabled : Failure
  storage_benchmarking_disabled : Failure
  try_runtime_disabled : Failure
  library : (code : ℕ) → Failure

pub data Answer (A : Type 0) : Type 0 where
  ok : A → Answer A
  err : Failure → Answer A
  panic : Answer A

abbrev pub N : Type 0 → Type 0
N A = Trace → Answer A × Trace

infixl 5 ◌>>=◌ ◌>>◌
abbrev pub continue : {A B : Type 0} → (A → N B) → Answer A × Trace → Answer B × Trace
continue f (ok a, t) = f a t
continue f (err e, t) = (err e, t)
continue f (panic, t) = (panic, t)

abbrev pub ◌>>=◌ : {A B : Type 0} → N A → (A → N B) → N B
◌>>=◌ m f t = continue f (m t)

abbrev pub ◌>>◌ : {B : Type 0} → N (Unit {0}) → N B → N B
m >> k = m >>= λ _. k

abbrev pub pure : {A : Type 0} → A → N A
pure a t = (ok a, t)

abbrev pub fail : {A : Type 0} → Failure → N A
fail e t = (err e, t)

-- A step that always succeeds.
abbrev pub act : Action → N (Unit {0})
act a t = (ok tt, t ++ a ∷ [])

abbrev pub when : Bool → N (Unit {0}) → N (Unit {0})
when b m = if b then m else pure tt

abbrev pub answer : Action → Trace → Option ℕ → Answer (Unit {0}) × Trace
answer a t none = act a t
answer a t (some code) = (err (library code), t)

-- `fails t a` is the code of the error of the step `a` after the steps `t`.
module _ (fails : Trace → Action → Option ℕ) where
  -- A step with `?`.
  abbrev pub try : Action → N (Unit {0})
  try a t = answer a t (fails t a)
