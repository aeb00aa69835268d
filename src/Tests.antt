-- ===== src/Tests.antt =====
-- Concrete runs of the models, and the theorems at concrete inputs.
mod Samples
mod Kernel
mod Tcpinfo
mod Conn
mod System
mod Platforms
mod Threads
mod Httpstat
mod Windows
mod Network
mod Other
mod Command
