-- ===== src/DataProxy.antt =====
-- The data proxy: components/data_proxy/src. Modelled are how a stored object is laid out, which bytes
-- of it a request for a range reads, its cache of resources, and who may access what.
pub mod Words
pub mod Format
pub mod Ranges
pub mod Objects
pub mod States
pub mod Rules
pub mod Cors
pub mod Caching
pub mod Access
pub mod Tokens
pub mod Listing
mod Examples
