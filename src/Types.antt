-- ===== src/Types.antt =====
-- internal/types/dns_types.go: resource records, record sets and their operations.
pub mod Rr
pub mod Sets
pub mod Split
pub mod Values
