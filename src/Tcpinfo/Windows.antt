-- ===== src/Tcpinfo/Windows.antt =====
-- pkg/tcpinfo on Windows.
pub mod Raw
pub mod SysInfo
pub mod Unpack
pub mod ToInfo
pub mod Get
pub mod Versions
pub mod States
