-- ===== src/Map.antt =====
-- `BTreeMap` with string keys: an association list in strictly ascending order of the keys, which
-- is the order that its iterators follow. A `HashMap` with such keys is the same list wherever the
-- program never shows the order in which it iterates.
mod Laws
mod Sorted
unfoldable pub use Defs.{Map, lookup, get_or_zero, insert, remove, keys}
pub use Laws.*
pub use Sorted.*
mod Defs
