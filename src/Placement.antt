-- ===== src/Placement.antt =====
-- placement_memory.c: the table of free areas of physical memory.
pub mod Area
pub mod Table
pub mod Allocate
pub mod AllocateArea
pub mod Cover
pub mod Insert
mod Tests
