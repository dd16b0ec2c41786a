-- ===== src/Windows.antt =====
-- src/platform/platform_windows.cpp: the collectors on Windows. What the calls of Windows return is an
-- argument, and so is the conversion of their UTF-16 texts.
pub mod Registry
pub mod Processes
pub mod Sockets
pub mod Interfaces
pub mod Packages
pub mod Order
pub mod Distinct
mod Tests
