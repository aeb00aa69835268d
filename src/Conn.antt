-- ===== src/Conn.antt =====
-- wrap.go: the wrapped connection and its reports.
pub mod Platform
pub mod State
pub mod Report
pub mod Methods
pub mod Snapshot
pub mod Effect
pub mod History
pub mod Sums
pub mod Order
pub mod Latest
pub mod Reports
pub mod Infos
pub mod Safe
pub mod Gathered
pub mod Threads
pub mod Unsupported
