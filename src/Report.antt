-- ===== src/Report.antt =====
-- src/main.cpp: the program's entry and the delivery of reports.
pub mod Drain
pub mod Drained
pub mod Delivery
pub mod Ending
pub mod Emptying
pub mod Taken
pub mod Secured
pub mod Stuck
pub mod Options
pub mod Records
pub mod Reporter
pub mod Running
pub mod Accounting
pub mod Telemetry
pub mod Commands
pub mod Quoting
mod Tests
