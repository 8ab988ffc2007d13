-- ===== src/Chain.antt =====
-- internal/chain: the storage keys, the encoding of calls and answers, and the client.
pub mod Keys
pub mod Geth
pub mod Hex
pub mod Reply
pub mod Abi
pub mod Client
