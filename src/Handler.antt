-- ===== src/Handler.antt =====
-- internal/handler/handler.go and internal/dnssec/dnssec.go: from a request to the sections of its
-- response.
pub mod World
pub mod Nsec
pub mod Addresses
pub mod Aname
pub mod Caa
pub mod Answer
pub mod Round
pub mod Settled
pub mod Coded
pub mod Codes
pub mod Owners
pub mod Chains
pub mod Sections
pub mod Answers
pub mod Loops
