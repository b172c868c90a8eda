-- ===== src/Tests.antt =====
-- Runs of the model at concrete inputs.
pub mod Numbers
pub mod Dns
pub mod Headers
pub mod Socks
pub mod Session
pub mod App
pub mod Chunks
pub mod Cache
pub mod FormData
pub mod Dispatch
pub mod Utf8
pub mod Url
pub mod LinkedList
pub mod Events
