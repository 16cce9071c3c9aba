-- ===== src/Protocol.antt =====
-- src/protocol.rs. The data types, the command encoder, the notification parser and the device
-- names are children; so are the modules that prove their laws.
pub mod Types
pub mod Command
pub mod Parse
pub mod Names
pub mod Pins
pub mod Uuid
pub mod Safety
pub mod Encoding
