-- ===== src/Rpc.antt =====
-- A remote call, from the arguments of the client to the method of the server and back: include/rpc/server and
-- include/rpc/client/client.hpp.
pub mod Header
pub mod Registry
pub mod Route
pub mod Caller
pub mod Calls
pub mod Refusals
pub mod Middleware
pub mod Zlib
pub mod Trigger
pub mod Context
pub mod Through
mod Tests
