-- ===== src/Parser.antt =====
-- libgstd/gstd_parser.c: the commands of the server.
pub mod Raw
pub mod Words
pub mod Pipelines
pub mod Elements
pub mod Events
pub mod Refs
pub mod Dispatch
pub mod Tokens
pub mod Requests
pub mod PipelineOrders
pub mod ElementOrders
pub mod EventOrders
pub mod LetterCase
pub mod Safety
pub mod SafeCommands
pub mod SafeLines
pub mod Invariant
pub mod Wild
