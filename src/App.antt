-- ===== src/App.antt =====
-- crates/tui/src/app.rs: the state of the terminal client and its operations. `State` has the data;
-- `Rows` and `Sql` the tables; `Selection` the navigation; `Session` the actions that start
-- background queries; `Results` what an answer does to the state; `Update` the periodic work.
pub mod State
pub mod Rows
pub mod Sql
pub mod Selection
pub mod Attach
pub mod Session
pub mod Results
pub mod Tasks
pub mod Update
pub mod Flight
pub mod Invariant
