-- ===== src/Tests.antt =====
-- Runs of the model on small inputs, and each theorem at an input that meets its hypotheses.
pub mod Samples
mod Buffers
mod Packets
pub mod Streams
pub mod Threads
pub mod Sockets
mod Life
mod Arguments
pub mod Resync
mod Crossing
mod Reports
mod Shutdown
mod Delivery
