-- ===== src/World.antt =====
-- The part of the operating system that the program uses: files, the clock, random identifiers
-- and environment variables, with the exceptions that their use raises.
pub mod Content
pub mod Effects
pub mod Paths
pub mod Frame
pub mod Post
pub mod Atomic
pub mod Returns
pub mod Raises
pub mod Folders
