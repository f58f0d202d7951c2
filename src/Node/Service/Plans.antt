-- ===== src/Node/Service/Plans.antt =====
-- What the start of a node in node/src/service.rs does, as a plan: the list of all its steps for a
-- configuration. However the libraries answer, the steps done are the plan or a part of it.
use mathlib.Core.List.{append-nil}
use pallet_rent.Prelude.{
  ℕ, ◌≡◌, ◌≢◌, inl, inr, Option-cases, refl, sym, Bool, true, false, not, Option, none, some, List,
  [], ◌∷◌, ◌++◌, if◌then◌else◌, is_none,
}
use pallet_rent.Node.Steps.{
  Action, new_telemetry, new_full_parts, spawn_telemetry, new_pool, grandpa_block_import,
  aura_slot_duration, aura_import_queue, push_grandpa_peers_set, build_network,
  build_offchain_workers, spawn_tasks, new_proposer_factory, start_aura, spawn_aura,
  run_grandpa_voter, spawn_grandpa_voter, start_network, Trace, remote_keystores_unsupported,
  hooking_up, Answer, ok, err, panic, act, try, pure,
}
use pallet_rent.Node.Steps.Following.{
  does, tries, needs_genesis, Plan, planned, Follows, Does, Does-bind, Does-pure, Does-act,
  Does-try, Does-step, Does-try_step, Does-when_step,
}
use pallet_rent.Node.Service.{
  Configuration, non_empty, start_telemetry, new_partial, hook_up, expect_genesis, start_authoring,
  start_finality, new_full,
}

abbrev pub telemetry_plan : Option (List (List ℕ)) → Plan
telemetry_plan none = []
telemetry_plan (some endpoints) = tries (new_telemetry endpoints) ∷ []

-- The steps of `new_partial`.
abbrev pub partial_plan : Configuration → Plan
partial_plan config =
    let endpoints = non_empty config.telemetry_endpoints in
    let telemetry = not (is_none endpoints) in
    telemetry_plan endpoints
    ++ (tries (new_full_parts telemetry)
        ∷ (planned telemetry (does spawn_telemetry ∷ [])
            ++ (does (new_pool config.is_authority)
                ∷ tries (grandpa_block_import telemetry)
                ∷ tries aura_slot_duration
                ∷ tries (aura_import_queue telemetry)
                ∷ [])))

abbrev authoring_plan : Configuration → Bool → Plan
authoring_plan config telemetry =
    does (new_proposer_factory telemetry)
    ∷ tries aura_slot_duration
    ∷ tries (start_aura config.force_authoring telemetry)
    ∷ does spawn_aura
    ∷ []

abbrev finality_plan : Configuration → Plan
finality_plan config =
    tries (run_grandpa_voter config.is_authority 333 512) ∷ does spawn_grandpa_voter ∷ []

-- The steps of `new_full`: block authoring is started exactly for an authority, GRANDPA exactly where
-- it is not disabled, with a keystore exactly for an authority, and the network at the end.
abbrev pub full_plan : Configuration → Plan
full_plan config =
    let telemetry = not (is_none (non_empty config.telemetry_endpoints)) in
    partial_plan config
    ++ (needs_genesis
        ∷ does push_grandpa_peers_set
        ∷ tries build_network
        ∷ (planned config.offchain_worker (does build_offchain_workers ∷ [])
            ++ (tries (spawn_tasks telemetry)
                ∷ (planned config.is_authority (authoring_plan config telemetry)
                    ++ (planned (not config.disable_grandpa) (finality_plan config)
                        ++ (does start_network ∷ []))))))

module _ (fails : Trace → Action → Option ℕ) (has_genesis : Trace → Bool) where
  genesis-Follows :
      (t : Trace) (b : Bool)
      → has_genesis t ≡ b
      → Follows fails has_genesis (needs_genesis ∷ []) tt t (if b then (ok tt, t) else (panic, t))
  genesis-Follows t true e = (refl, sym (append-nil t), (e, tt))
  genesis-Follows t false e = ([], [], refl, sym (append-nil t), tt, e)

  Does-telemetry :
      (o : Option (List (List ℕ)))
      → Does fails has_genesis
          (telemetry_plan o)
          (not (is_none o))
          (start_telemetry fails has_genesis o)
  Does-telemetry none = Does-pure fails has_genesis false
  Does-telemetry (some endpoints) =
      Does-bind fails has_genesis (tries (new_telemetry endpoints) ∷ []) [] tt true
        (try fails (new_telemetry endpoints)) (λ _. pure true)
        (Does-try fails has_genesis (new_telemetry endpoints)) (Does-pure fails has_genesis true)

  Does-genesis : Does fails has_genesis (needs_genesis ∷ []) tt (expect_genesis fails has_genesis)
  Does-genesis = record { follows = λ t. genesis-Follows t (has_genesis t) refl }

  new_partial-Does :
      (config : Configuration)
      → config.keystore_remote ≡ none
      → Does fails has_genesis
          (partial_plan config)
          (not (is_none (non_empty config.telemetry_endpoints)))
          (new_partial fails has_genesis config)
  unfolding new_partial
  new_partial-Does config local =
      let endpoints = non_empty config.telemetry_endpoints in
      let telemetry = not (is_none endpoints) in
      rw local (
        Does-bind fails has_genesis _ _ telemetry telemetry
          (start_telemetry fails has_genesis endpoints) _ (Does-telemetry endpoints)
          (Does-try_step fails has_genesis (new_full_parts telemetry) _ telemetry _ (
            Does-when_step fails has_genesis telemetry (does spawn_telemetry ∷ []) _ telemetry
              (act spawn_telemetry) _ (Does-act fails has_genesis spawn_telemetry)
              (Does-step fails has_genesis (new_pool config.is_authority) _ telemetry _ (
                Does-try_step fails has_genesis (grandpa_block_import telemetry) _ telemetry _ (
                  Does-try_step fails has_genesis aura_slot_duration _ telemetry _ (
                    Does-try_step fails has_genesis (aura_import_queue telemetry) [] telemetry _
                      (Does-pure fails has_genesis telemetry))))))))

  authoring-Does :
      (config : Configuration) (telemetry : Bool)
      → Does fails has_genesis
          (authoring_plan config telemetry)
          tt
          (start_authoring fails has_genesis config telemetry)
  unfolding start_authoring
  authoring-Does config telemetry =
      Does-step fails has_genesis (new_proposer_factory telemetry) _ tt _ (
        Does-try_step fails has_genesis aura_slot_duration _ tt _ (
          Does-try_step fails has_genesis (start_aura config.force_authoring telemetry) _ tt _
            (Does-act fails has_genesis spawn_aura)))

  finality-Does :
      (config : Configuration)
      → Does fails has_genesis (finality_plan config) tt (start_finality fails has_genesis config)
  unfolding start_finality
  finality-Does config =
      Does-try_step fails has_genesis (run_grandpa_voter config.is_authority 333 512) _ tt _
        (Does-act fails has_genesis spawn_grandpa_voter)

  hook_up-Does :
      (o : Option (List ℕ)) → o ≡ none → Does fails has_genesis [] tt (hook_up fails has_genesis o)
  hook_up-Does o local = rw local (Does-pure fails has_genesis tt)

  pub new_full-Does :
      (config : Configuration)
      → config.keystore_remote ≡ none
      → Does fails has_genesis (full_plan config) tt (new_full fails has_genesis config)
  unfolding new_full
  new_full-Does config local =
      let telemetry = not (is_none (non_empty config.telemetry_endpoints)) in
      Does-bind fails has_genesis _ _ telemetry tt (new_partial fails has_genesis config) _
        (new_partial-Does config local)
        (Does-bind fails has_genesis [] _ tt tt (hook_up fails has_genesis config.keystore_remote) _
          (hook_up-Does config.keystore_remote local)
          (Does-bind fails has_genesis (needs_genesis ∷ []) _ tt tt
            (expect_genesis fails has_genesis) _ Does-genesis
            (Does-step fails has_genesis push_grandpa_peers_set _ tt _ (
              Does-try_step fails has_genesis build_network _ tt _ (
                Does-when_step fails has_genesis config.offchain_worker
                  (does build_offchain_workers ∷ []) _ tt (act build_offchain_workers) _
                  (Does-act fails has_genesis build_offchain_workers)
                  (Does-try_step fails has_genesis (spawn_tasks telemetry) _ tt _ (
                    Does-when_step fails has_genesis config.is_authority
                      (authoring_plan config telemetry) _ tt
                      (start_authoring fails has_genesis config telemetry) _
                      (authoring-Does config telemetry)
                      (Does-when_step fails has_genesis (not config.disable_grandpa)
                        (finality_plan config) _ tt (start_finality fails has_genesis config) _
                        (finality-Does config) (Does-act fails has_genesis start_network)))))))))

  -- Without a remote keystore, and after any steps `t`, `new_full` succeeds if no item of its plan fails,
  -- and has then done the steps of the plan in their order. Else it stops at the first item that
  -- fails, having done exactly the steps before it: at a step that fails it returns that step's
  -- error, and where the genesis block is not found it panics. In the plan, block authoring is
  -- started exactly for an authority and GRANDPA exactly where it is not disabled, and the network
  -- is started last.
  pub new_full-Follows :
      (config : Configuration) (t : Trace)
      → config.keystore_remote ≡ none
      → Follows fails has_genesis (full_plan config) tt t (new_full fails has_genesis config t)
  new_full-Follows config t local = (new_full-Does config local).follows t

  new_full-remote :
      (config : Configuration) (t : Trace) (x : List ℕ)
      → config.keystore_remote ≡ some x
      → new_full fails has_genesis config t ≡ (err remote_keystores_unsupported, t)
  unfolding new_full new_partial
  new_full-remote config t x remote = rw remote refl

  Follows-library :
      (p : Plan) (t : Trace) (r : Answer (Unit {0}) × Trace) (url : List ℕ)
      → Follows fails has_genesis p tt t r
      → r.0 ≢ err (hooking_up url)
  Follows-library p t (ok a, u) url h e = cc
  Follows-library p t (err x, u) url (did, a, rest, code, cut, done, passed, failed, is) e = cc
  Follows-library p t (panic, u) url h e = cc

  -- Whatever the configuration, its remote keystore included, and whatever the steps answer, the error
  -- of `new_full` that a remote keystore could not be hooked up is never returned: the code that
  -- returns it is not reached.
  pub new_full-hooking_up :
      (config : Configuration) (url : List ℕ) (t : Trace)
      → (new_full fails has_genesis config t).0 ≢ err (hooking_up url)
  new_full-hooking_up config url t = elim (Option-cases config.keystore_remote) [
    | inl local ↦
        Follows-library (full_plan config) t (new_full fails has_genesis config t) url
          (new_full-Follows config t local)
    | inr (x, remote) ↦ λ e. cc (new_full-remote config t x remote)
  ]
