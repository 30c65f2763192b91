-- ===== src/Tests.antt =====
-- Runs of the model on concrete inputs.
pub mod Streams
pub mod Protocols
pub mod Texts
pub mod Writables
pub mod Handlers
pub mod JsonSample
pub mod Ends
pub mod Transports
