-- ===== src/Cve.antt =====
-- src/cve.cpp and include/ns/cve.hpp: the index of known vulnerabilities and the matcher.
pub mod Names
pub mod Index
pub mod Match
pub mod Scan
pub mod Report
pub mod Best
pub mod Prefixes
pub mod Totals
mod Tests
