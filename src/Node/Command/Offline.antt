-- ===== src/Node/Command/Offline.antt =====
-- What `run` of node/src/command.rs starts: nothing of the network and of consensus with a subcommand,
-- and the full node without one.
use mathlib.Core.List.{append_assoc, append-nil}
use pallet_rent.Prelude.{
  ℕ, ◌≡◌, refl, sym, ap, ◌∙◌, Bool, true, false, Option, none, some, List, [], ◌∷◌, ◌++◌, is_none,
  not, if◌then◌else◌,
}
use pallet_rent.Node.Steps.{
  Action, new_telemetry, new_full_parts, spawn_telemetry, new_pool, grandpa_block_import,
  aura_slot_duration, aura_import_queue, build_network, build_offchain_workers, spawn_tasks,
  start_aura, spawn_aura, run_grandpa_voter, spawn_grandpa_voter, start_network, create_runner,
  run_command, inherent_data, new_task_manager, wait_for_exit, Trace, Failure,
  remote_keystores_unsupported, benchmarking_disabled, storage_benchmarking_disabled,
  try_runtime_disabled, Answer, ok, err, panic, N, continue, ◌>>=◌, ◌>>◌, pure, fail, act, answer,
  try, when,
}
use pallet_rent.Node.Steps.Following.{tries, Follows, Does, Does-bind, Does-try, Does-try_step}
use pallet_rent.Node.Service.{Configuration, start_telemetry, non_empty, new_partial, new_full}
use pallet_rent.Node.Service.Plans.{full_plan, new_full-Does}
use pallet_rent.Node.Command.{
  BenchmarkCmd, pallet, block, storage, overhead, extrinsic, machine, Subcommand, key, build_spec,
  check_block, export_blocks, export_state, import_blocks, purge_chain, revert, benchmark,
  try_runtime, chain_info, Features, run_benchmark, run_subcommand, run,
}

-- The steps that connect the node to the network or let it take part in consensus.
abbrev pub connects : Action → Bool
connects build_network = true
connects build_offchain_workers = true
connects (spawn_tasks telemetry) = true
connects (start_aura force telemetry) = true
connects spawn_aura = true
connects (run_grandpa_voter keystore gossip period) = true
connects spawn_grandpa_voter = true
connects start_network = true
connects a = false

abbrev pub Offline : Trace → Type 0
Offline [] = Unit
Offline (a ∷ t) = (connects a ≡ false) × Offline t

Offline-append : (t u : Trace) → Offline t → Offline u → Offline (t ++ u)
Offline-append [] u h k = k
Offline-append (a ∷ t) u h k = (h.0, Offline-append t u h.1 k)

-- From any steps, no further step connects the node.
unfoldable pub Quiet : {A : Type 0} → N A → Type 0
Quiet m = (t : Trace) → (did : Trace) × ((m t).1 ≡ t ++ did) × Offline did

Quiet-continue :
    {A B : Type 0} (f : A → N B) (t did : Trace) (r : Answer A × Trace)
    → r.1 ≡ t ++ did
    → Offline did
    → ((v : A) → Quiet (f v))
    → (all : Trace) × ((continue f r).1 ≡ t ++ all) × Offline all
unfolding Quiet
Quiet-continue f t did (ok v, u) is off k =
    let (more, after, quiet) = k v u in
    (
      did ++ more,
      after ∙ ap (λ x. x ++ more) is ∙ append_assoc t did more,
      Offline-append did more off quiet,
    )
Quiet-continue f t did (err e, u) is off k = (did, is, off)
Quiet-continue f t did (panic, u) is off k = (did, is, off)

Quiet-bind :
    {A B : Type 0} (m : N A) (f : A → N B) → Quiet m → ((v : A) → Quiet (f v)) → Quiet (m >>= f)
unfolding Quiet
Quiet-bind m f h k t = let (did, is, off) = h t in Quiet-continue f t did (m t) is off k

Quiet-pure : {A : Type 0} (v : A) → Quiet (pure v)
unfolding Quiet
Quiet-pure v t = ([], sym (append-nil t), tt)

Quiet-fail : (A : Type 0) (e : Failure) → Quiet {A = A} (fail e)
unfolding Quiet
Quiet-fail A e t = ([], sym (append-nil t), tt)

Quiet-act : (a : Action) → connects a ≡ false → Quiet (act a)
unfolding Quiet
Quiet-act a off t = (a ∷ [], refl, (off, tt))

Quiet-when : (b : Bool) (m : N (Unit {0})) → Quiet m → Quiet (when b m)
Quiet-when true m h = h
Quiet-when false m h = Quiet-pure tt

Quiet-if : {A : Type 0} (b : Bool) (m n : N A) → Quiet m → Quiet n → Quiet (if b then m else n)
Quiet-if true m n h k = h
Quiet-if false m n h k = k

module _ (fails : Trace → Action → Option ℕ) (has_genesis : Trace → Bool) where
  answer-Quiet :
      (a : Action) (t : Trace) (o : Option ℕ)
      → connects a ≡ false
      → (did : Trace) × ((answer a t o).1 ≡ t ++ did) × Offline did
  answer-Quiet a t none off = (a ∷ [], refl, (off, tt))
  answer-Quiet a t (some code) off = ([], sym (append-nil t), tt)

  Quiet-try : (a : Action) → connects a ≡ false → Quiet (try fails a)
  unfolding Quiet
  Quiet-try a off t = answer-Quiet a t (fails t a) off

  Quiet-step :
      {B : Type 0} (a : Action) (k : N B) → connects a ≡ false → Quiet k → Quiet (try fails a >> k)
  Quiet-step a k off h = Quiet-bind (try fails a) (λ _. k) (Quiet-try a off) (λ _. h)

  start_telemetry-Quiet : (o : Option (List (List ℕ))) → Quiet (start_telemetry fails has_genesis o)
  start_telemetry-Quiet none = Quiet-pure false
  start_telemetry-Quiet (some endpoints) =
      Quiet-step (new_telemetry endpoints) (pure true) refl (Quiet-pure true)

  new_partial-Quiet : (config : Configuration) → Quiet (new_partial fails has_genesis config)
  unfolding new_partial
  new_partial-Quiet config =
      Quiet-if (not (is_none config.keystore_remote)) _ _
        (Quiet-fail Bool remote_keystores_unsupported)
        (Quiet-bind (start_telemetry fails has_genesis (non_empty config.telemetry_endpoints)) _
          (start_telemetry-Quiet (non_empty config.telemetry_endpoints))
          λ telemetry. Quiet-step (new_full_parts telemetry) _ refl (
            Quiet-bind (when telemetry (act spawn_telemetry)) _
              (Quiet-when telemetry (act spawn_telemetry) (Quiet-act spawn_telemetry refl))
              λ _.
                Quiet-bind (act (new_pool config.is_authority)) _
                  (Quiet-act (new_pool config.is_authority) refl)
                  λ _. Quiet-step (grandpa_block_import telemetry) _ refl (
                    Quiet-step aura_slot_duration _ refl
                      (Quiet-step (aura_import_queue telemetry) _ refl (Quiet-pure telemetry)))))

  module _ (features : Features) (config_of : Option Subcommand → Configuration) where
    partial-Quiet :
        (c : Subcommand) (m : N (Unit {0}))
        → Quiet m
        → Quiet (new_partial fails has_genesis (config_of (some c)) >>= λ _. m)
    partial-Quiet c m h =
        Quiet-bind (new_partial fails has_genesis (config_of (some c))) (λ _. m)
          (new_partial-Quiet (config_of (some c))) (λ _. h)

    run_command-Quiet : Quiet (try fails run_command)
    run_command-Quiet = Quiet-try run_command refl

    run_benchmark-Quiet :
        (b : BenchmarkCmd) → Quiet (run_benchmark fails has_genesis features config_of b)
    unfolding run_benchmark
    run_benchmark-Quiet pallet =
        Quiet-if (not features.runtime_benchmarks) _ _ (Quiet-fail Unit benchmarking_disabled)
          run_command-Quiet
    run_benchmark-Quiet block = partial-Quiet (benchmark block) _ run_command-Quiet
    run_benchmark-Quiet storage =
        Quiet-if (not features.runtime_benchmarks) _ _
          (Quiet-fail Unit storage_benchmarking_disabled)
          (partial-Quiet (benchmark storage) _ run_command-Quiet)
    run_benchmark-Quiet overhead =
        partial-Quiet (benchmark overhead) _ (Quiet-step inherent_data _ refl run_command-Quiet)
    run_benchmark-Quiet extrinsic =
        partial-Quiet (benchmark extrinsic) _ (Quiet-step inherent_data _ refl run_command-Quiet)
    run_benchmark-Quiet machine = run_command-Quiet

    run_subcommand-Quiet :
        (c : Subcommand) → Quiet (run_subcommand fails has_genesis features config_of c)
    unfolding run_subcommand
    run_subcommand-Quiet key = run_command-Quiet
    run_subcommand-Quiet build_spec = Quiet-step create_runner _ refl run_command-Quiet
    run_subcommand-Quiet check_block =
        Quiet-step create_runner _ refl (partial-Quiet check_block _ run_command-Quiet)
    run_subcommand-Quiet export_blocks =
        Quiet-step create_runner _ refl (partial-Quiet export_blocks _ run_command-Quiet)
    run_subcommand-Quiet export_state =
        Quiet-step create_runner _ refl (partial-Quiet export_state _ run_command-Quiet)
    run_subcommand-Quiet import_blocks =
        Quiet-step create_runner _ refl (partial-Quiet import_blocks _ run_command-Quiet)
    run_subcommand-Quiet purge_chain = Quiet-step create_runner _ refl run_command-Quiet
    run_subcommand-Quiet revert =
        Quiet-step create_runner _ refl (partial-Quiet revert _ run_command-Quiet)
    run_subcommand-Quiet (benchmark b) = Quiet-step create_runner _ refl (run_benchmark-Quiet b)
    run_subcommand-Quiet try_runtime =
        Quiet-if (not features.try_runtime_enabled) _ _ (Quiet-fail Unit try_runtime_disabled)
          (Quiet-step create_runner _ refl (Quiet-step new_task_manager _ refl run_command-Quiet))
    run_subcommand-Quiet chain_info = Quiet-step create_runner _ refl run_command-Quiet

    -- With a subcommand, `run` takes no step that connects the node to the network or lets it take
    -- part in consensus, whatever the steps answer.
    pub run-Quiet :
        (c : Subcommand) (t : Trace)
        → (did : Trace) × ((run fails has_genesis features config_of (some c) t).1 ≡ t ++ did)
          × Offline did
    unfolding run Quiet
    run-Quiet c t = run_subcommand-Quiet c t

    run-Does :
        (config_of none).keystore_remote ≡ none
        → Does fails has_genesis
            (tries create_runner ∷ (full_plan (config_of none) ++ tries wait_for_exit ∷ []))
            tt
            (run fails has_genesis features config_of none)
    unfolding run
    run-Does local = Does-try_step fails has_genesis create_runner _ tt _ (
        Does-bind fails has_genesis (full_plan (config_of none)) (tries wait_for_exit ∷ []) tt tt
          (new_full fails has_genesis (config_of none)) _
          (new_full-Does fails has_genesis (config_of none) local)
          (Does-try fails has_genesis wait_for_exit))

    -- Without a subcommand and without a remote keystore, `run` follows the plan that makes a runner,
    -- starts the full node and waits for its exit: all of the plan is done, or a step of it fails
    -- and is the error, or the genesis block is missing.
    run-Follows :
        (t : Trace)
        → (config_of none).keystore_remote ≡ none
        → Follows fails has_genesis
            (tries create_runner ∷ (full_plan (config_of none) ++ tries wait_for_exit ∷ []))
            tt
            t
            (run fails has_genesis features config_of none t)
    run-Follows t local = (run-Does local).follows t
