-- ===== src/Net.antt =====
-- The two ends of the connections to the gateway: src/rpc/{rpc_base_net,net_server,net_channel}.{h,cpp}.
pub mod LinkId
pub mod Base
pub mod OnePacket
pub mod Life
pub mod ReadSize
pub mod ServerClient
pub mod ServerRoute
pub mod ChannelNet
