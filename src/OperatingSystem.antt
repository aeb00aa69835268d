-- ===== src/OperatingSystem.antt =====
-- pkg/os: the name and version of the system, and whether it is a container: on Linux here, elsewhere
-- in `Windows` and `Unix`. A file is the list of its bytes.
pub mod Lines
pub mod Release
pub mod Trimmed
pub mod Cgroup
pub mod Root
pub mod Windows
pub mod Unix
