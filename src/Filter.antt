-- ===== src/Filter.antt =====
-- src/mpegts_filter.rs: the filter that cuts one program out of a multi-program transport stream.
-- A panic of an index out of bounds is a value of `Exec`, and so is a loop that its fuel cuts off.
pub mod Packet
pub mod State
pub mod Tables
pub mod Stream
pub mod Total
pub mod Kept
pub mod Pieces
pub mod Asked
pub mod Rounds
pub mod Output
