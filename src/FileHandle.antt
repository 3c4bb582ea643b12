-- ===== src/FileHandle.antt =====
-- fhstream.hpp and fhstream.cpp: the stream buffers over a handle, and what they promise.
pub mod Output
pub mod Input
pub mod Delivery
pub mod Arrival
pub mod Storage
mod Characters
mod Reading
pub mod Writes
