-- ===== src/Server.antt =====
-- The server kit (server/).
pub mod Role
pub mod Auth
pub mod Input
pub mod Store
pub mod ReplayBuffer
pub mod Subscription
pub mod Scene
pub mod Kit
pub mod Session
pub mod Adapters
