-- ===== src/Model.antt =====
-- crates/core/src/model.rs: the data that the profiler's parts exchange. `F` is the type of f64; an
-- f32 is kept as the f64 of its value. Unsigned integers are numbers, i32 and i64 are integers,
-- paths and strings are texts.
pub mod Views
pub mod Rows
pub mod Threads
pub mod Tree
pub mod Floats
