-- ===== src/Tcpinfo/AnyMap.antt =====
-- Go's `map[string]any` as the `ToMap` methods build it: a list of fields with distinct keys.
mod Defs
pub mod Lookup
pub mod Kinds
pub use Defs.{
  Value, uint8, uint16, uint32, uint64, int, str, flag, texts, options, obj, Fields, end, field,
  Entry, entry,
}
unfoldable pub use Defs.{assign, lookup, assign_valid}
