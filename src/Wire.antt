-- ===== src/Wire.antt =====
-- RSZeroReserveItems.h, RSZeroReserveItems.cpp, RSZRRemoteItems.h and RSZRRemoteItems.cpp: the items
-- that friends send to one another, and how they are written into packets and read from them.
pub mod Raw
pub mod Fields
pub mod Items
pub mod Serialiser
pub mod Codec
pub mod Sizes
pub mod Readers
pub mod RoundTrip
pub mod Rejects
pub mod Refusal
mod Cells
pub mod Signs
mod Tests
