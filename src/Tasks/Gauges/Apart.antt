-- ===== src/Tasks/Gauges/Apart.antt =====
-- The tasks set different gauges, if the names in the configuration are different.
pub mod Accounts
pub mod Markets
