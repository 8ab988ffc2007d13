-- ===== src/Tasks/Gauges.antt =====
-- The series that the tasks export, against a chain that does not change.
pub mod Entries
pub mod Expected
pub mod Rules
pub mod Access
pub mod Markets
pub mod Fees
pub mod Feeds
pub mod Lists
pub mod Whole
pub mod Places
pub mod Apart
pub mod Shown
pub mod Standing
