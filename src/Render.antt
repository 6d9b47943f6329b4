-- ===== src/Render.antt =====
-- crates/tui/src/render.rs: the texts that are drawn, without their colours and their places.
pub mod Texts
pub mod Frame
pub mod Threads
pub mod Cpu
pub mod Memory
pub mod Heap
pub mod Hotspots
pub mod Database
pub mod Telemetry
