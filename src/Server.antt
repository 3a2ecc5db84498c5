-- ===== src/Server.antt =====
-- include/rpc/server: what a sub-reactor keeps of each request and each response.
pub mod PieceState
pub mod Servlet
pub mod Request
pub mod Response
pub mod Reactor
pub mod MainReactor
mod Tests
