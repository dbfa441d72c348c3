-- ===== src/Tests.antt =====
-- The theorems at concrete inputs.
pub mod Wire
pub mod Search
pub mod Server
pub mod Creating
pub mod Passing
pub mod Conditions
pub mod Client
pub mod Transfer
pub mod Link
pub mod Network
pub mod Store
pub mod Main
