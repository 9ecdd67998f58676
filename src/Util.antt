-- ===== src/Util.antt =====
-- src/util.rs: periods to wait for, durations as text, and the mutex with its condition variable.
pub mod WaitPeriod
pub mod RunnerState
pub mod CondvarGuard
pub mod Durations
