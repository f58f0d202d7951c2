-- ===== src/Node/Strings.antt =====
-- The strings of node/src/chain_spec.rs and of `load_spec` in node/src/command.rs, as their bytes.
use pallet_rent.Prelude.{ℕ, Bool, true, false, List, [], ◌∷◌, ◌==◌, ◌&&◌}

-- "//"
abbrev pub slashes : List ℕ
slashes = b'/' ∷ b'/' ∷ []

-- "Alice"
abbrev pub alice : List ℕ
alice = b'A' ∷ b'l' ∷ b'i' ∷ b'c' ∷ b'e' ∷ []

-- "Bob"
abbrev pub bob : List ℕ
bob = b'B' ∷ b'o' ∷ b'b' ∷ []

-- "Charlie"
abbrev pub charlie : List ℕ
charlie = b'C' ∷ b'h' ∷ b'a' ∷ b'r' ∷ b'l' ∷ b'i' ∷ b'e' ∷ []

-- "Dave"
abbrev pub dave : List ℕ
dave = b'D' ∷ b'a' ∷ b'v' ∷ b'e' ∷ []

-- "Eve"
abbrev pub eve : List ℕ
eve = b'E' ∷ b'v' ∷ b'e' ∷ []

-- "Ferdie"
abbrev pub ferdie : List ℕ
ferdie = b'F' ∷ b'e' ∷ b'r' ∷ b'd' ∷ b'i' ∷ b'e' ∷ []

-- "Alice//stash"
abbrev pub alice_stash : List ℕ
alice_stash = b'A' ∷ b'l' ∷ b'i' ∷ b'c' ∷ b'e' ∷ b'/' ∷ b'/' ∷ b's' ∷ b't' ∷ b'a' ∷ b's' ∷ b'h' ∷ []

-- "Bob//stash"
abbrev pub bob_stash : List ℕ
bob_stash = b'B' ∷ b'o' ∷ b'b' ∷ b'/' ∷ b'/' ∷ b's' ∷ b't' ∷ b'a' ∷ b's' ∷ b'h' ∷ []

-- "Charlie//stash"
abbrev pub charlie_stash : List ℕ
charlie_stash =
    b'C' ∷ b'h' ∷ b'a' ∷ b'r' ∷ b'l' ∷ b'i' ∷ b'e' ∷ b'/' ∷ b'/' ∷ b's' ∷ b't' ∷ b'a' ∷ b's' ∷ b'h'
    ∷ []

-- "Dave//stash"
abbrev pub dave_stash : List ℕ
dave_stash = b'D' ∷ b'a' ∷ b'v' ∷ b'e' ∷ b'/' ∷ b'/' ∷ b's' ∷ b't' ∷ b'a' ∷ b's' ∷ b'h' ∷ []

-- "Eve//stash"
abbrev pub eve_stash : List ℕ
eve_stash = b'E' ∷ b'v' ∷ b'e' ∷ b'/' ∷ b'/' ∷ b's' ∷ b't' ∷ b'a' ∷ b's' ∷ b'h' ∷ []

-- "Ferdie//stash"
abbrev pub ferdie_stash : List ℕ
ferdie_stash =
    b'F' ∷ b'e' ∷ b'r' ∷ b'd' ∷ b'i' ∷ b'e' ∷ b'/' ∷ b'/' ∷ b's' ∷ b't' ∷ b'a' ∷ b's' ∷ b'h' ∷ []

-- "Development"
abbrev pub development : List ℕ
development = b'D' ∷ b'e' ∷ b'v' ∷ b'e' ∷ b'l' ∷ b'o' ∷ b'p' ∷ b'm' ∷ b'e' ∷ b'n' ∷ b't' ∷ []

-- "dev"
abbrev pub dev : List ℕ
dev = b'd' ∷ b'e' ∷ b'v' ∷ []

-- "Local Testnet"
abbrev pub local_testnet : List ℕ
local_testnet =
    b'L' ∷ b'o' ∷ b'c' ∷ b'a' ∷ b'l' ∷ b' ' ∷ b'T' ∷ b'e' ∷ b's' ∷ b't' ∷ b'n' ∷ b'e' ∷ b't' ∷ []

-- "local_testnet"
abbrev pub local_testnet_id : List ℕ
local_testnet_id =
    b'l' ∷ b'o' ∷ b'c' ∷ b'a' ∷ b'l' ∷ b'_' ∷ b't' ∷ b'e' ∷ b's' ∷ b't' ∷ b'n' ∷ b'e' ∷ b't' ∷ []

-- "local"
abbrev pub local_id : List ℕ
local_id = b'l' ∷ b'o' ∷ b'c' ∷ b'a' ∷ b'l' ∷ []

-- "Development wasm not available"
abbrev pub no_wasm : List ℕ
no_wasm =
    b'D' ∷ b'e' ∷ b'v' ∷ b'e' ∷ b'l' ∷ b'o' ∷ b'p' ∷ b'm' ∷ b'e' ∷ b'n' ∷ b't' ∷ b' ' ∷ b'w' ∷ b'a'
    ∷ b's' ∷ b'm' ∷ b' ' ∷ b'n' ∷ b'o' ∷ b't' ∷ b' ' ∷ b'a' ∷ b'v' ∷ b'a' ∷ b'i' ∷ b'l' ∷ b'a'
    ∷ b'b' ∷ b'l' ∷ b'e' ∷ []

-- `==` of two strings.
abbrev pub eq_string : List ℕ → List ℕ → Bool
eq_string [] [] = true
eq_string [] (d ∷ ds) = false
eq_string (c ∷ cs) [] = false
eq_string (c ∷ cs) (d ∷ ds) = (c == d) && eq_string cs ds
