-- ===== src/Httpstat.antt =====
-- cmd/httpstat/main.go: the command that times an HTTP request. Strings are lists of code points.
pub mod Headers
pub mod Request
pub mod Response
pub mod Times
pub mod Network
pub mod Tls
pub mod Visit
pub mod Output
pub mod Main
pub mod CommandLine
pub mod Command
pub mod Prints
