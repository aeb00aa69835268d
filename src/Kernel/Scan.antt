-- ===== src/Kernel/Scan.antt =====
-- What `ParseRelease` uses of Go's `fmt.Sscanf`: the verbs %d and %s and the literal dot. A verb
-- that fails ends the scan, and `none` stands for that; a text is the list of its runes.
mod Defs
pub mod Laws
unfoldable pub use Defs.{
  is_space, is_sign, in_int, skip_space, scan_sign, scan_int, scan_literal, scan_string,
}
