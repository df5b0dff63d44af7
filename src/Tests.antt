-- ===== src/Tests.antt =====
-- Instances of the theorems at concrete inputs, and runs of the definitions.
mod Pages
mod Locking
mod Bitmaps
mod Logging
mod Caching
mod Storing
mod Trees
mod Walks
mod Pooling
mod Devices
mod Blocks
mod Searching
mod Statements
mod Undoing
