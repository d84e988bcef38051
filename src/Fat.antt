-- ===== src/Fat.antt =====
-- The FAT16 reader of fat/.
pub mod Disk
pub mod Entry
pub mod Volume
pub mod Search
pub mod Reading
pub mod Listing
pub mod Directory
pub mod Tree
pub mod Commands
pub mod Main
mod Demo
mod Tests
