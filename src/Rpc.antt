-- ===== src/Rpc.antt =====
-- The ends of a call, src/rpc: closures, controllers, channels and servers.
pub mod Closure
pub mod Controller
pub mod Channel
pub mod Server
