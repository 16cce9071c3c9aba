-- ===== src/Frp.antt =====
-- src/frp: the Flight Relay Protocol adapter. What the adapter sends, the conversions, the shot
-- identifiers and the device are children; so are the modules that prove their laws.
pub mod Types
pub mod Convert
pub mod Uuid
pub mod Device
pub mod Events
pub mod Keeping
pub mod Acceptor
pub mod Asking
pub mod Delivery
