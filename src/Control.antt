-- ===== src/Control.antt =====
-- src/stream_control.rs and src/analysis.rs: start and stop of inputs, outputs and analyses. The
-- write guard of `ACTIVE_STREAMS` is held from one access to the next; where the source gives it up
-- in between, the argument `meanwhile` is what other tasks do to the world.
pub mod Outcome
pub mod Analysis
pub mod Outputs
pub mod Inputs
pub mod StopLaws
pub mod Aborts
pub mod Restart
pub mod Resume
pub mod Deadlock
pub mod Destination
pub mod OutputLaws
pub mod Unresolved
pub mod AnalysisLaws
pub mod Moves
pub mod Atomic
pub mod Interleaved
pub mod Steps
