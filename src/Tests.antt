-- ===== src/Tests.antt =====
-- Runs on concrete inputs: the tests of Tests/Tests.h, and the theorems applied to small examples.
pub mod Peers
mod Http
mod Net
mod Worker
mod Program
mod Messages
mod Serving
mod Starting
mod Threads
mod Logger
mod Descriptors
mod Whole
