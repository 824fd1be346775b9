-- ===== src/Examples.antt =====
-- Concrete inputs: a server with one pipeline, and what the operations and theorems give there.
pub mod Server
pub mod Runs
pub mod Commands
pub mod Safety
pub mod Gstreamer
pub mod Pipelines
pub mod Clients
pub mod Lines
pub mod Wire
pub mod Web
pub mod Events
pub mod Players
pub mod Emitting
pub mod Waiting
pub mod Listed
pub mod Printed
