-- ===== src/Linux.antt =====
-- src/platform/platform_linux.cpp: the collectors on Linux. What the system calls return, and what
-- the files in /proc and /etc hold, are arguments.
pub mod Files
pub mod Sockets
pub mod Processes
pub mod Packages
pub mod Interfaces
pub mod Stat
pub mod Columns
mod Tests
