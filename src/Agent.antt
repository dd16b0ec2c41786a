-- ===== src/Agent.antt =====
-- src/agent.cpp and include/ns/agent.hpp: the service's scans, requests and locks.
pub mod Locks
pub mod Progress
pub mod Results
pub mod Scan
pub mod Requests
pub mod Watchdog
pub mod Delivery
pub mod Recording
mod Tests
