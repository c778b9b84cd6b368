-- ===== src/IndexIterator/Tests.antt =====
-- The theorems of the iterator at one that wraps.
use lunchbox.IndexIterator.{IndexIterator}

abbrev last : IndexIterator
last = record { container = 3; position = 18446744073709551615 }
