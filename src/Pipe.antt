-- ===== src/Pipe.antt =====
-- src/ipc_windows.cpp and include/ns/ipc.hpp: the named pipe between the service and nsctl. What the
-- calls of Windows return is an argument.
pub mod Server
pub mod Accepting
pub mod Instances
pub mod Calling
mod Tests
