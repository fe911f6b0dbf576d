-- ===== src/Tss/Coordinator.antt =====
-- tss/coordinator.go: how relayers agree to start a process. One select loop is a function on the
-- events that it receives, in the order in which it receives them.
pub mod Initiate
pub mod WaitForStart
pub mod Execute
pub mod Concurrent
