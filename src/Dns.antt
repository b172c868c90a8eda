-- ===== src/Dns.antt =====
-- examples/dns-server: the wire-format codec and the cache of the recursive resolver.
pub mod Bytes
pub mod Name
pub mod Address
pub mod At
pub mod Rdata
pub mod Message
pub mod Cache
