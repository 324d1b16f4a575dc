-- ===== src/Route/Forward.antt =====
-- `BuildSendPacket`, `GetNetInfo` of src/route/route.cpp: the bytes that the gateway reads and
-- those that it sends.
pub mod Relay
use frrpc.Prelude.{ℕ, ◌+◌, Option, if◌then◌else◌, ◌^◌, ltb, leb, ◌-◌, none, [], some}
use frrpc.Prelude.Outcome.{Outcome, ok, refused, or_fault, or_refuse, ◌>>=◌}
use frrpc.Wire.Bytes.{Bytes, le_bytes, slice, read}
use frrpc.Wire.Messages.{NetInfo}
use frrpc.Wire.External.{External}
use frrpc.Wire.Packet.{u16, u32}

-- The packet at `offset` as it stands.
unfoldable pub whole_packet : Bytes → ℕ → Outcome Bytes
whole_packet binary offset = do
  size ← or_fault (read 4 offset binary)
  or_fault (slice offset (4 + size) binary)

module _ (ext : External) where
  unfoldable pub get_net_info : Bytes → ℕ → Outcome NetInfo
  get_net_info binary offset = do
    net_size ← or_fault (read 2 (offset + 4) binary)
    if ltb 0 net_size
        then (do
          bytes ← or_fault (slice (offset + 6) net_size binary)
          or_refuse (ext.net_info.parse bytes))
        else refused

  -- `SerializeToArray` into the `size` bytes at the end of the packet, which it must not exceed.
  unfoldable pub serialize_within : NetInfo → ℕ → Option Bytes
  serialize_within net_info size =
      if leb (ext.net_info.byte_size net_info) size then ext.net_info.serialize net_info else none

  -- The packet at `offset` with another net info; a null pointer is `none`.
  unfoldable pub build_send_packet : Bytes → ℕ → NetInfo → Outcome (Option Bytes)
  build_send_packet binary offset net_info = do
    original_size ← or_fault (read 4 offset binary)
    original_net_info_size ← or_fault (read 2 (offset + 4) binary)
    let copy_offset = offset + 6 + original_net_info_size
    let copy_size = u32 (original_size + 2 ^ 32 - 2 - original_net_info_size)
    let cur_net_info_size = u16 (ext.net_info.byte_size net_info)
    let packet_size = u32 (original_size + 2 ^ 32 + cur_net_info_size - original_net_info_size)
    let head = ext.add (ext.add [] (le_bytes 4 packet_size)) (le_bytes 2 cur_net_info_size)
    elim (serialize_within net_info cur_net_info_size) [
      | none ↦ ok none
      | some bytes ↦ (do
        rest ← or_fault (slice copy_offset copy_size binary)
        ok (some (ext.add (ext.add head bytes) rest)))
    ]
