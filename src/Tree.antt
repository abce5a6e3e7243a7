-- ===== src/Tree.antt =====
-- The tree of system/folders.c as what its pointers must satisfy.
pub mod Linked
pub mod Rooted
pub mod Valid
pub mod Seen
pub mod Files
pub mod Grow
pub mod Move
pub mod Acyclic
pub mod Settled
pub mod Steps
pub mod Marks
pub mod Places
pub mod Store
