-- ===== src/Client.antt =====
-- The client: include/rpc/client.
pub mod ResponseData
pub mod Invoker
mod Tests
