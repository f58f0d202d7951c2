-- ===== src/Lib.antt =====
-- A verification library for the rent pallet (pallets/rent), a FRAME pallet with which accounts mint
-- collectibles, offer them for rent and rent them from each other, by the block.
--
-- The program. The pallet (pallets/rent/src/lib.rs) keeps six storage items: the collectibles, the
-- ids that each account owns, the configuration of each rental by lessee and collectible, the list
-- of rentable ids, the rentals that are pending in each block, and the ids that each account has
-- equipped. Nine dispatchable functions change them: `mint`, `burn`, `set_rentable`, `rent`,
-- `set_unrentable`, `set_recurring`, `extend_rent`, `equip_collectible` and `unequip_collectible`.
-- The hook `on_initialize` processes what is pending in its block: it ends a rental, or charges the
-- next period of a recurring one and appends it to a later block. Money moves by the runtime's
-- currency.
--
-- The files.
--   Prelude: Boolean tests, lists with counts, and maps as functions.
--   Rent/Types: the configuration trait, the stored types, the storage as one record, the events and
--     the errors. Rent/Effects: outcomes (a value, an error, a panic, or no end) and the state monad
--     in which the functions are written, with the `?`, `ensure!` and `unwrap` of the source.
--     Rent/Rules and Rent/Failures: rules about successful, safe and failing runs.
--   Rent/Helpers: the helper functions and pallets/rent/src/utils.rs, with Helpers/Results and, on
--     the loop of `append_pending_rental_to_available_block`, Helpers/Search.
--   Rent/Internal: `do_mint`, `do_rent_collectible`, `do_extend_rent` and
--     `do_process_rental_periods`, the loop's body cut into `process_rental`, `charge_rental`,
--     `renew_rental`, `append_rental` and `end_rental`. Internal/Renting and Internal/Extending say
--     what the second and the third do.
--   Rent/Calls: the dispatchable functions and the hook; Calls/Renting is about two of them.
--   Rent/Invariant: well-formed storage in three parts, Leases (rentals, lessees and pending
--     entries agree), Holdings (ownership, the list of rentable ids, equipment) and Bounds, with the
--     preservation of each by every call and by the hook.
--   Rent/Properties: payments, ends and renewals of rentals, errors and success of `rent`, its
--     panic on what was just minted, errors of `extend_rent`, who may change a collectible, when the
--     hook returns, what errors leave, and calls that undo each other.
--   Rent/Chain: sequences of calls and blocks from the genesis block; calls without a signature.
--   Rent/Market: an abstract market of owners, terms and tenants, with what accounts and blocks may do
--     in it; Market/View is the market that a storage stands for, Market/Calls and Market/Blocks
--     the refinement, Market/Lasting and Market/Tenure what follows for lessees and lessors.
--   Rent/Schedule: each rental is pending in a block that is still to come; Schedule/Changes on the
--     writes, Schedule/Calls and Schedule/Blocks on calls and the hook, Schedule/Course on the chain.
--   Rent/Verdict: the outcome of a call that moves no funds as a list of checks, with Verdict/Rules on
--     the steps and Verdict/Calls on the calls; Verdict/Stages and Stages/Funds do the same for
--     `rent` and `extend_rent`, with panics and searches that never end.
--   Rent/Consent: who pays; Consent/Calls and Consent/Blocks on calls and the hook, Consent/Absence on
--     the chain without the calls of one account.
--   Rent/Mock: pallets/rent/src/mock.rs, the pallet's configuration in the tests, `run_to_block` and
--     `add_collectible`; Mock/Kept, Mock/Waiting and Mock/Life follow a rental to its due block.
--   Rent/Samples: a concrete runtime with the constants of pallets/rent/src/mock.rs, scenarios of
--     pallets/rent/src/tests.rs, and the theorems at concrete inputs.
--   Runtime: the constants of runtime/src/lib.rs and its configuration of the rent pallet, with what they
--     mean for prices (Runtime/Prices) and for the built-in specifications (Runtime/Genesis).
--     Runtime/Transactions: what a signed transaction carries, and when its signature is right.
--   Node: the two built-in chain specifications of node/src/chain_spec.rs and the selection of one by
--     `load_spec` of node/src/command.rs, with the theorems in Node/Names and Node/Endowment; the
--     steps of the node's start (Node/Steps, with plans in Steps/Following), `new_partial` and
--     `new_full` of node/src/service.rs (Node/Service, Service/Plans), and `run` of
--     node/src/command.rs with the subcommands of node/src/cli.rs (Node/Command, Command/Offline).
--     Node/Benchmarking: the extrinsics of node/src/benchmarking.rs, with Benchmarking/Valid.
--     Node/Rpc: `create_full` of node/src/rpc.rs.
--
-- The model. Ids, accounts, block numbers and balances are native numbers. Sums of block numbers and
-- products of balances are reduced modulo 2 to the width of the type, a product of two `u32` modulo
-- 2 ^ 32, which is what a release build does. A storage map is a function into options, or into
-- lists for a `ValueQuery`; `BoundedVec::try_push` and `try_append` fail beyond their bound, as
-- documented. The currency's storage, its `free_balance` and `transfer`, the randomness source, the
-- encoding and the hash are fields of the configuration, since their code is not in the repository;
-- `CurrencyLaws` states the documented effect of a transfer where a theorem needs it. A call that
-- returns an error leaves no trace on the chain, as FRAME runs each call in a storage layer.
--
-- Fuel. The loop of `append_pending_rental_to_available_block` has no bound in the source. It is
-- given two rounds: from the second round on it tries the same block, so that a loop that goes on
-- after two rounds never ends, and the model's outcome is then `endless`.
--
-- Not modelled: weights, the metadata and the types that macros generate, the runtime's composition
-- of library pallets and its interfaces (the rest of runtime/src/lib.rs), which set up code of
-- other projects. In a chain specification, key pairs, the accounts of public keys, the Wasm binary
-- and the reading of a file are parameters; in an extrinsic, so are eras, signatures and the
-- encoding, and in the RPC its modules and their merge, with laws from their documentation. Of the
-- node's start, the components themselves are the libraries': the model has the steps that make and
-- spawn them, with what the configuration decides, and whether a step fails is a parameter.
pub mod Prelude
pub mod Rent
pub mod Runtime
pub mod Node
