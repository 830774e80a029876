-- ===== src/Tests.antt =====
-- Concrete inputs, and the theorems at them.
mod Confined
mod Added
mod Tree
mod Site
mod Zones
mod Filters
mod Requests
mod Stored
mod Signing
mod Limits
mod Accounts
mod Redis
mod Caches
mod Records
mod Upstreams
mod Workers
mod Items
mod Events
mod Probes
mod Resolved
