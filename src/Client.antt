-- ===== src/Client.antt =====
-- The client's parts (client/src).
pub mod Redaction
pub mod Session
pub mod MemoryStore
pub mod Agent
pub mod Api
pub mod Manager
pub mod Prompt
pub mod Tickets
pub mod Toy
