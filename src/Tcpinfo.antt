-- ===== src/Tcpinfo.antt =====
-- pkg/tcpinfo: the kernel's TCP statistics for a socket.
pub mod TcpOption
pub mod AnyMap
pub mod Info
pub mod Names
pub mod Duration
pub mod Options
pub mod Warn
pub mod Linux
pub mod Darwin
pub mod Windows
pub mod Other
pub mod Typed
