-- ===== src/Tasks/Lines.antt =====
-- The numbers in the lines of the reports, when the chain does not change during the run.
pub mod Loop
pub mod Chainlink
pub mod Gas
pub mod Funding
