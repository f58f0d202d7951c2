-- ===== src/Node/Rpc.antt =====
-- `create_full` of node/src/rpc.rs: the methods that the node serves.
--
-- The client, the pool, the APIs of the two libraries and `RpcModule` of jsonrpsee are parameters;
-- `Laws` states what the documentation of `RpcModule` says.
mod Samples
use pallet_rent.Prelude.{ℕ, ◌≡◌, refl, Bool, true, false, ◌&&◌, ◌||◌, arith, ap, ◌∙◌}

pub data Merged (E M : Type 0) : Type 0 where
  merged : M → Merged E M
  failed : E → Merged E M

infixl 5 ◌>>=◌
abbrev pub ◌>>=◌ : {E M N : Type 0} → Merged E M → (M → Merged E N) → Merged E N
merged m >>= f = f m
failed e >>= f = failed e

-- `FullDeps`
pub record FullDeps (Client Pool : Type 0) : Type 0 where
  pub client : Client
  pub pool : Pool
  pub deny_unsafe : Bool

-- Code of libraries: `RpcModule::new`, `RpcModule::merge`, and the methods of `System` and of
-- `TransactionPayment`. `serves` says whether a module has a method, by its name.
pub record Library (Client Pool M E : Type 0) : Type 0 where
  pub new : M
  pub merge : M → M → Merged E M
  pub system : Client → Pool → Bool → M
  pub transaction_payment : Client → M
  pub serves : M → ℕ → Bool

-- The documentation of `RpcModule`: a new one has no method, and `merge` adds all methods of the other
-- one, but fails if any of them is there already.
pub record Laws {Client Pool M E : Type 0} (lib : Library Client Pool M E) : Type 0 where
  pub empty : (name : ℕ) → lib.serves lib.new name ≡ false
  pub added :
      (m o : M)
      → ((name : ℕ) → lib.serves m name && lib.serves o name ≡ false)
      → (u : M) × (lib.merge m o ≡ merged u)
        × ((name : ℕ) → lib.serves u name ≡ lib.serves m name || lib.serves o name)
  pub present :
      (m o : M) (name : ℕ)
      → lib.serves m name ≡ true
      → lib.serves o name ≡ true
      → (e : E) × (lib.merge m o ≡ failed e)

module _ {Client Pool M E : Type 0} (lib : Library Client Pool M E) where
  -- `create_full`
  unfoldable pub create_full : FullDeps Client Pool → Merged E M
  create_full deps = do
    module₁ ← lib.merge lib.new (lib.system deps.client deps.pool deps.deny_unsafe)
    module₂ ← lib.merge module₁ (lib.transaction_payment deps.client)
    merged module₂

  module _ (laws : Laws lib) (deps : FullDeps Client Pool) where
    abbrev system : M
    system = lib.system deps.client deps.pool deps.deny_unsafe

    abbrev payment : M
    payment = lib.transaction_payment deps.client

    -- The first merge, with what it gives.
    system-added :
        (u : M) × (lib.merge lib.new system ≡ merged u)
        × ((name : ℕ) → lib.serves u name ≡ lib.serves system name)
    system-added =
        let (u, is, serves) = laws.added lib.new system (λ name. ground (arith, laws.empty name)) in
        (u, is, λ name. ground (arith, laws.empty name, serves name))

    -- Where the documentation of `RpcModule` holds and the two APIs share no method, `create_full`
    -- succeeds, and the node serves all methods of both and no other.
    pub create_full-serves :
        ((name : ℕ) → lib.serves system name && lib.serves payment name ≡ false)
        → (u : M) × (create_full deps ≡ merged u)
          × ((name : ℕ) → lib.serves u name ≡ lib.serves system name || lib.serves payment name)
    unfolding create_full
    create_full-serves apart =
        let (u, first, same) = system-added in
        let (v, then, both) = laws.added u payment (λ name. rw (same name) (apart name)) in
        (
          v,
          rw (create_full, first, then) refl,
          λ name. both name ∙ ap (λ b. b || lib.serves payment name) (same name),
        )

    -- If they share a method, there is an error.
    pub create_full-fails :
        (name : ℕ)
        → lib.serves system name ≡ true
        → lib.serves payment name ≡ true
        → (e : E) × (create_full deps ≡ failed e)
    unfolding create_full
    create_full-fails name here there =
        let (u, first, same) = system-added in
        let (e, then) = laws.present u payment name (same name ∙ here) there in
        (e, rw (create_full, first, then) refl)
