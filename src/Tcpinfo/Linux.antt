-- ===== src/Tcpinfo/Linux.antt =====
-- pkg/tcpinfo on Linux.
pub mod Raw
pub mod SysInfo
pub mod ToMap
pub mod Versions
pub mod Unpack
pub mod Layout
pub mod Covered
pub mod Reported
pub mod ToInfo
pub mod Get
pub mod Socketcall
