-- ===== src/Tests.antt =====
-- Concrete runs, and the properties at concrete inputs.
mod Samples
mod Frames
mod Sessions
mod Silence
mod Controllers
mod Transports
mod Radios
mod Attempts
mod Buses
mod Programs
