-- ===== src/Net.antt =====
-- The connections that monitor/*.go is given by Go's package net. A connection is what the other
-- side and the system still have in store for it: the results of the coming reads and writes, in
-- order. Every behaviour that the contracts of io.Reader and io.Writer allow is such a script, also
-- short writes, empty reads, errors that come with data, and any segmentation of the stream.
mod Script
mod ReadFull
mod Reading
unfoldable pub use Script.*
unfoldable pub use ReadFull.*
pub use Reading.*
