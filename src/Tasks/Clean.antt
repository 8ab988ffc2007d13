-- ===== src/Tasks/Clean.antt =====
-- What the findings of a task say, when the chain does not change during the run: each call is
-- given by what it always returns. A report without findings means that all is clean.
pub mod Loop
pub mod Probe
pub mod Queue
pub mod Whole
pub mod Order
pub mod Gas
pub mod Chainlink
pub mod Funding
pub mod MarketOi
pub mod Oracle
pub mod Params
pub mod Vault
pub mod Timelock
pub mod Fee
pub mod Features
pub mod Privileged
pub mod Role
