-- ===== src/Kernel/Release.antt =====
-- pkg/kernel/kernel.go, `ParseRelease`; pkg/kernel/kernel_unix.go. The release is a parameter:
-- `uname` is the system's.
mod Defs
pub mod RoundTrip
pub mod Sound
unfoldable pub use Defs.{
  scan_major, scan_numbers, scan_rest, parse_release, get_kernel_version, check_kernel_version,
}
