-- ===== src/Runtime/Transactions.antt =====
-- Signed transactions of runtime/src/lib.rs: what a transaction carries, and when the runtime finds its
-- signature right.
--
-- The extensions, the keys, the signatures and the encoding are libraries', and parameters; `Laws`
-- states what their documentation says.
use pallet_rent.Prelude.{ℕ, ◌+◌, ◌^◌, ◌≤◌, ◌<◌, ◌≡◌, Bool, true, Option, none, some, List}
use pallet_rent.Runtime.{RuntimeVersion, version, block_hash_count}

-- The calls of `RuntimeCall` that the repository's own code makes.
pub data RuntimeCall : Type 0 where
  remark : (remark : List ℕ) → RuntimeCall
  transfer_keep_alive : (dest value : ℕ) → RuntimeCall

-- `SignedExtra`, in its order, with what each extension carries.
pub record SignedExtra (E : Type 0) : Type 0 where
  pub check_non_zero_sender : Unit {0}
  pub check_spec_version : Unit {0}
  pub check_tx_version : Unit {0}
  pub check_genesis : Unit {0}
  pub check_era : E
  pub check_nonce : ℕ
  pub check_weight : Unit {0}
  pub charge_transaction_payment : ℕ

-- What each extension adds to the payload that is signed, in their order.
abbrev pub Additional : Type 0
Additional = Unit {0} × ℕ × ℕ × ℕ × ℕ × Unit {0} × Unit {0} × Unit {0}

-- `UncheckedExtrinsic`, signed.
pub record UncheckedExtrinsic (E : Type 0) : Type 0 where
  pub call : RuntimeCall
  pub signer : ℕ
  pub signature : ℕ
  pub extra : SignedExtra E

-- What the runtime's extensions read where a transaction is checked: the version, the number of the
-- block that is made, and the stored hashes of blocks.
pub record View : Type 0 where
  pub version : RuntimeVersion
  pub number : ℕ
  pub block_hash : ℕ → Option ℕ

-- Code of libraries, over their types of eras and of key pairs: `Era::mortal` and `Era::birth`, what
-- `CheckSpecVersion`, `CheckTxVersion`, `CheckGenesis` and `CheckEra` add to the payload, the account
-- of a key pair, `sign`, `verify`, and the encoded payload, as `using_encoded` gives it.
pub record Library (E Pair : Type 0) : Type 0 where
  pub mortal : (period current : ℕ) → E
  pub birth : E → ℕ → ℕ
  pub spec_version_signed : View → ℕ
  pub tx_version_signed : View → ℕ
  pub genesis_signed : View → ℕ
  pub era_signed : View → E → Option ℕ
  pub account : Pair → ℕ
  pub sign : Pair → List ℕ → ℕ
  pub verify : (account : ℕ) → List ℕ → (signature : ℕ) → Bool
  pub encoded : RuntimeCall → SignedExtra E → Additional → List ℕ

-- The documentation of the libraries. An era is mortal from a block on, for a period that is a power
-- of two between 4 and 65536, and starts at exactly that block if the period is 4096 at most; within
-- it, that block is its birth. `CheckEra` adds the hash of the birth, if it is stored.
pub record Laws {E Pair : Type 0} (lib : Library E Pair) : Type 0 where
  pub born :
      (period k current n : ℕ)
      → period ≡ 2 ^ k
      → 4 ≤ period
      → period ≤ 4096
      → current ≤ n
      → n < current + period
      → lib.birth (lib.mortal period current) n ≡ current
  pub spec : (v : View) → lib.spec_version_signed v ≡ v.version.spec_version
  pub tx : (v : View) → lib.tx_version_signed v ≡ v.version.transaction_version
  pub genesis : (v : View) (h : ℕ) → v.block_hash 0 ≡ some h → lib.genesis_signed v ≡ h
  pub era :
      (v : View) (e : E) (h : ℕ)
      → v.block_hash (lib.birth e v.number) ≡ some h
      → lib.era_signed v e ≡ some h
  pub verified : (p : Pair) (m : List ℕ) → lib.verify (lib.account p) m (lib.sign p m) ≡ true

-- The view of the next block but on a chain with the hashes `hash`: the runtime's version, and the hashes
-- that `frame_system` keeps, of the genesis block and of the last `BlockHashCount` blocks.
pub record Follows (hash : ℕ → ℕ) (v : View) : Type 0 where
  pub current : v.version ≡ version
  pub genesis : v.block_hash 0 ≡ some (hash 0)
  pub recent :
      (j : ℕ) → j < v.number → v.number ≤ j + block_hash_count → v.block_hash j ≡ some (hash j)

module _ {E Pair : Type 0} (lib : Library E Pair) where
  -- `additional_signed` of the tuple `SignedExtra`: each extension's part, in their order.
  abbrev pub additional_signed : View → SignedExtra E → Option Additional
  additional_signed v extra = elim (lib.era_signed v extra.check_era) [
    | none ↦ none
    | some era ↦ some (
      tt,
      lib.spec_version_signed v,
      lib.tx_version_signed v,
      lib.genesis_signed v,
      era,
      tt,
      tt,
      tt,
    )
  ]

  -- The signature is the signer's, over the call, the extensions and what they add.
  abbrev pub Verified : View → UncheckedExtrinsic E → Type 0
  Verified v xt =
      (additional : Additional) × (additional_signed v xt.extra ≡ some additional)
      × (lib.verify xt.signer (lib.encoded xt.call xt.extra additional) xt.signature ≡ true)
