-- ===== src/Program.antt =====
-- src/program/: states, the actor of one program, and its event loop.
pub mod State
pub mod Status
pub mod Spawn
pub mod Stop
pub mod Exit
pub mod Loop
mod Samples
