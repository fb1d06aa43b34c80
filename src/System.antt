-- ===== src/System.antt =====
-- The kernel as a whole: the invariant of all its lists and states, and the steps that it makes.
pub mod Shape
pub mod Counts
pub mod Allocate
pub mod Allocated
pub mod Creation
pub mod Leaving
pub mod Dropped
pub mod Owned
pub mod Cleaning
pub mod Exit
pub mod Moves
pub mod Interrupts
pub mod Typing
pub mod SemCalls
pub mod SemLife
pub mod Reads
pub mod Queries
pub mod Steps
pub mod Observed
