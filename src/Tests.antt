-- ===== src/Tests.antt =====
-- Runs of the code on concrete inputs.
pub mod Values
pub mod Terminal
pub mod Wire
pub mod Tables
pub mod Dumps
pub mod Trees
pub mod Attaching
pub mod Sessions
pub mod Drawing
pub mod Allocations
