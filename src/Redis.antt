-- ===== src/Redis.antt =====
-- Package internal/redis: the client interface, its parsers, and the managers built on it.
pub mod Effect
pub mod Node
pub mod Client
pub mod GoRedis
pub mod Remote
pub mod Tls
pub mod Calls
pub mod Slots
pub mod Addr
pub mod Wait
pub mod Migrate
pub mod Members
pub mod Rebalance
pub mod Form
pub mod Loops
pub mod Chain
pub mod Parse
pub mod Info
pub mod Sentinel
