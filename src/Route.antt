-- ===== src/Route.antt =====
-- The gateway: src/route/route.{h,cpp}.
pub mod ServiceInfos
pub mod State
pub mod Services
pub mod Forward
pub mod Process
pub mod Receive
