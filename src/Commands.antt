-- ===== src/Commands.antt =====
-- commands.cpp: the commands.
pub mod Help
pub mod Repo
pub mod Unlock
pub mod Keys
pub mod Lock
pub mod AddUser
pub mod Listing
pub mod Status
pub mod Safety
pub mod Entries
pub mod Conflicts
pub mod Shared
pub mod Collaborator
pub mod Fuel
pub mod Reports
