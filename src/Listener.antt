-- ===== src/Listener.antt =====
-- src/eventlistener/: the pool of event listeners, its wire format, and the handshake with a
-- listener process.
pub mod Wire
pub mod Events
pub mod Pool
pub mod Handshake
mod Samples
