-- ===== src/Dns.antt =====
-- internal/edns/dns.go: the tables of record types and response codes. The children model the
-- names, the building of queries, the answers and the reading of responses.
pub mod Message
pub mod Tables
pub mod Name
pub mod Reverse
pub mod Query
pub mod Answer
pub mod Age
pub mod Response
