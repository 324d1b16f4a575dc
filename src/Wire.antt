-- ===== src/Wire.antt =====
-- The wire format: src/public/rpc_serializable.{h,cpp} over src/pb/*.proto. A `BinaryMemory` is
-- shown by the bytes that it holds.
pub mod Bytes
pub mod Messages
pub mod External
pub mod Packet
pub mod Layout
pub mod RoundTrip
