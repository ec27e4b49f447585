-- ===== src/Dns.antt =====
-- The DNS server's data model.
pub mod Text
pub mod Names
pub mod Tree
pub mod Types
pub mod Records
pub mod Creation
pub mod Zone
pub mod Store
pub mod Service
