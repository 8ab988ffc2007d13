-- ===== src/Chain/Geth.antt =====
-- What internal/chain uses of go-ethereum's `common` and `crypto` packages, as a parameter.
-- `common.Hash` and `common.Address` are arrays of 32 and of 20 bytes.
use hertz_reconciler.Prelude.{◌≡◌, ◌≢◌, Bytes, Str, length}

abbrev pub Hash : Type 0
Hash = Bytes

abbrev pub Address : Type 0
Address = Bytes

pub record Geth : Type 0 where
  -- `crypto.Keccak256` and `crypto.Keccak256Hash`
  pub keccak256 : Bytes → Hash
  -- `common.HexToAddress`
  pub hex_to_address : Str → Address
  -- `Address.Hex`
  pub address_hex : Address → Str
  -- `common.BytesToAddress`
  pub bytes_to_address : Bytes → Address

-- The documented sizes of the two array types, and that an address is made of its own bytes.
pub record IsGeth (g : Geth) : Type 0 where
  pub length-keccak256 : (b : Bytes) → length (g.keccak256 b) ≡ 32
  pub length-hex_to_address : (s : Str) → length (g.hex_to_address s) ≡ 20
  pub bytes_to_address_self : (a : Bytes) → length a ≡ 20 → g.bytes_to_address a ≡ a

-- Two inputs of Keccak-256 with one hash.
abbrev pub Collision : Geth → Type 0
Collision g = (x : Bytes) × (y : Bytes) × (x ≢ y) × (g.keccak256 x ≡ g.keccak256 y)
