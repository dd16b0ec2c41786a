-- ===== src/Database.antt =====
-- src/db_odbc.cpp: the database client. ODBC is an argument: what each call returns, from the calls
-- and replies before it.
pub mod Session
pub mod Engine
pub mod Recording
pub mod Runs
pub mod Calls
pub mod Statements
pub mod Atomic
pub mod Partial
pub mod Queries
pub mod Connection
mod Tests
