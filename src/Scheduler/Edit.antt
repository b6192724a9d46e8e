-- ===== src/Scheduler/Edit.antt =====
-- The operations of src/scheduler.cc that insert, remove and reorder breakpoints: add_breakpoint is
-- in Add, the others are in Drop.
pub mod Drop
pub mod Add
pub mod Insert
pub mod Remove
pub mod Order
