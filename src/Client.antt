-- ===== src/Client.antt =====
-- The client of the simulation: client/*.c.
pub mod AngleCommand
pub mod CalcData
pub mod DoubleList
pub mod Integrator
pub mod Plant
pub mod Printing
pub mod Packs
pub mod Spawn
pub mod Stock
pub mod Threads
pub mod Workers
pub mod Network
pub mod CalcRef
pub mod PrinterParams
