-- ===== src/Jvm.antt =====
-- crates/core/src/jvm.rs: what the profiler reads out of the output of the JDK's tools.
pub mod Targets
pub mod ThreadDump
pub mod Output
pub mod Counters
pub mod Histogram
pub mod Recording
