-- ===== src/Windows.antt =====
-- The parts of the program that are built for Windows only: coprocess-win32.cpp, util-win32.cpp.
pub mod CommandLine
pub mod Runtime
pub mod Win32
pub mod System
pub mod Coprocess
pub mod Arrival
pub mod ExePath
pub mod Protected
pub mod Arguments
pub mod Crypto
