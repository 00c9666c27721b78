-- ===== src/Examples.antt =====
-- A small instance of the server, and the theorems at it.
mod World
mod Walks
mod Decisions
mod Searches
mod Upkeep
mod Requests
mod Synced
mod Proxy
mod ProxyAccess
mod ProxyCalls
mod ProxyTokens
