-- ===== src/Checks.antt =====
-- The theorems at concrete inputs.
pub mod Lists
pub mod Texts
pub mod Transfers
pub mod Starts
pub mod Events
pub mod Resources
pub mod Sockets
pub mod Peers
pub mod Configs
pub mod Formats
