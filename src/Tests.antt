-- ===== src/Tests.antt =====
-- The theorems at concrete inputs.
pub mod Data
pub mod Gathering
pub mod Json
pub mod Store
pub mod Answering
pub mod Calls
pub mod Accounts
pub mod Listening
pub mod Map
pub mod Interleaving
pub mod Sessions
pub mod Signals
pub mod Leaving
pub mod Starting
pub mod Media
pub mod Meeting
