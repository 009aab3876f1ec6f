-- ===== src/Blockdevice.antt =====
-- kernel/src/blockdevice: block devices with a write-back cache.
pub mod Defs
pub mod Cache
pub mod Io
pub mod Partial
pub mod Maintain
pub mod Slots
pub mod ReadWrite
pub mod Guards
pub mod Defects
pub mod Ram
mod Tests
