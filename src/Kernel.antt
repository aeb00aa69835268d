-- ===== src/Kernel.antt =====
-- pkg/kernel: the version record, its order, and the release parser.
pub mod Version
pub mod Scan
pub mod Release
pub mod Windows
pub mod Uname
