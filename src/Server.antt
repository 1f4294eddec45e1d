-- ===== src/Server.antt =====
-- The server of the simulation: server/*.c.
pub mod Control
pub mod Stock
pub mod Threads
pub mod Spawn
pub mod Network
pub mod Rounds
