-- ===== src/Tests.antt =====
-- Concrete runs: a stand-in for go-ethereum and nodes that always give one answer, and for every
-- theorem with hypotheses an input at which they hold.
pub mod Demo
pub mod Encoding
pub mod Findings
pub mod Runs
pub mod Order
pub mod Gauges
pub mod Garbled
pub mod Steady
pub mod Lines
pub mod Delivery
pub mod Daemon
pub mod Program
