-- ===== src/Tcpinfo/Darwin.antt =====
-- pkg/tcpinfo on Darwin.
pub mod Raw
pub mod SysInfo
pub mod Unpack
pub mod ToInfo
pub mod Get
pub mod Options
pub mod Flags
pub mod Values
