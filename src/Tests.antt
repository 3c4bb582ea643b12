-- ===== src/Tests.antt =====
-- Runs of the model, and the theorems at concrete inputs.
pub mod Toy
mod Checkouts
pub mod Words
pub mod Keys
pub mod Ciphers
pub mod Filters
pub mod Commands
mod Collaborator
mod Pipes
mod Coprocesses
mod Windows
mod Cng
mod Listings
mod Programs
mod Files
