-- ===== src/Examples.antt =====
-- The program at small inputs.
mod Evictors
mod Store
mod Http
mod Exact
mod Clients
mod Programs
mod Caches
mod Loads
