-- ===== src/Heart/Packet.antt =====
-- The packet of a heart: `BuildHeartPacket` of src/public/rpc_heart.cpp.
use frrpc.Prelude.{Option}
use frrpc.Wire.Bytes.{Bytes}
use frrpc.Wire.Messages.{NetInfo, empty_net_info, net_type_heart}
use frrpc.Wire.External.{External}
use frrpc.Wire.Packet.{build_from_net_info}

abbrev pub heart_info : NetInfo
heart_info = record empty_net_info { net_type = net_type_heart }

unfoldable pub build_heart_packet : External → Option Bytes
build_heart_packet ext = build_from_net_info ext heart_info
