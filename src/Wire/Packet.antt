-- ===== src/Wire/Packet.antt =====
-- Building and taking apart packets: `BuildBinaryFromMessage`, `GetMessageFromBinary` and
-- `RpcPacket` of src/public/rpc_serializable.{h,cpp}. `new` and `reserve` do not fail.
use frrpc.Prelude.{ℕ, ◌+◌, ◌-◌, ◌%◌, ◌^◌, [], Option, none, some, leb, ltb, if◌then◌else◌}
use frrpc.Prelude.Outcome.{Outcome, ok, refused, or_fault, or_refuse, ◌>>=◌}
use frrpc.Wire.Bytes.{Bytes, slice, read}
use frrpc.Wire.Messages.{NetInfo, RpcMeta, empty_meta, net_type_special, net_type_route_cmd}
use frrpc.Wire.External.{Codec, External}

abbrev pub event_method : ℕ
event_method = 1

abbrev pub event_connection : ℕ
event_connection = 2

abbrev pub event_disconnection : ℕ
event_disconnection = 3

pub record RpcPacket : Type 0 where
  pub link_id : ℕ
  pub net_event : ℕ
  pub rpc_meta : RpcMeta
  pub binary : Option Bytes

-- The constructor: the binary is a null pointer.
abbrev pub new_packet : ℕ → ℕ → RpcPacket
new_packet link_id net_event = record {
  link_id = link_id;
  net_event = net_event;
  rpc_meta = empty_meta;
  binary = none;
}

-- The copy constructor follows the other packet's binary.
unfoldable pub copy_packet : RpcPacket → Outcome RpcPacket
copy_packet ref = do bytes ← or_fault ref.binary; ok (record ref { binary = some bytes })

abbrev pub u16 : ℕ → ℕ
u16 n = n % 2 ^ 16

abbrev pub u32 : ℕ → ℕ
u32 n = n % 2 ^ 32

module _ (ext : External) where
  -- The null pointer is `none`.
  unfoldable pub build_from_net_info : NetInfo → Option Bytes
  build_from_net_info net_info =
      let net_info_size = u16 (ext.net_info.byte_size net_info) in
      let packet_size = u32 (2 + net_info_size) in
      let head = ext.push_number 2 net_info_size (ext.push_number 4 packet_size []) in
      elim (ext.net_info.serialize net_info) [
        | none ↦ none
        | some bytes ↦ some (ext.add head bytes)
      ]

  unfoldable pub build_from_message : {M : Type 0} → Codec M → NetInfo → RpcMeta → M → Option Bytes
  build_from_message codec net_info meta body =
      let net_info_size = u16 (ext.net_info.byte_size net_info) in
      let rpc_meta_size = u16 (ext.rpc_meta.byte_size meta) in
      let packet_size = u32 (2 + net_info_size + 2 + rpc_meta_size + codec.byte_size body) in
      let head = ext.push_number 2 net_info_size (ext.push_number 4 packet_size []) in
      elim (ext.net_info.serialize net_info) [
        | none ↦ none
        | some net_bytes ↦ elim (ext.rpc_meta.serialize meta) [
          | none ↦ none
          | some meta_bytes ↦ elim (codec.serialize body) [
            | none ↦ none
            | some body_bytes ↦ some (
                ext.add
                  (ext.add (ext.push_number 2 rpc_meta_size (ext.add head net_bytes)) meta_bytes)
                  body_bytes)
          ]
        ]
      ]

  unfoldable pub build_from_cmd : {M : Type 0} → Codec M → ℕ → M → Option Bytes
  unfolding build_from_net_info
  build_from_cmd codec cmd cmd_info = elim (codec.serialize cmd_info) [
    | none ↦ none
    | some request ↦
        elim (ext.cmd_request.serialize (record { cmd = cmd; request_binary = request })) [
          | none ↦ none
          | some bytes ↦
              build_from_net_info (record { net_type = net_type_route_cmd; net_binary = bytes })
        ]
  ]

  -- The net info at `cur_offset`, if its size is not 0.
  unfoldable pub get_net_part : Bytes → ℕ → ℕ → NetInfo → Outcome NetInfo
  get_net_part binary cur_offset net_size net_info =
      if ltb 0 net_size
      then (do
        bytes ← or_fault (slice cur_offset net_size binary)
        or_refuse (ext.net_info.parse bytes))
      else ok net_info

  -- The body behind the meta, if its size is not 0.
  unfoldable pub get_body : Bytes → ℕ → ℕ → RpcPacket → Outcome RpcPacket
  get_body binary cur_offset body_size packet =
      if ltb 0 body_size
      then (do
        body ← or_fault (slice cur_offset body_size binary)
        ok (record packet { binary = some body }))
      else ok packet

  unfoldable pub get_meta : Bytes → ℕ → ℕ → Outcome RpcMeta
  get_meta binary cur_offset meta_size =
      if ltb 0 meta_size
      then (do
        bytes ← or_fault (slice cur_offset meta_size binary)
        or_refuse (ext.rpc_meta.parse bytes))
      else refused

  -- The meta and the body of a packet whose net info ends at `cur_offset`.
  unfoldable pub get_rpc_part : Bytes → ℕ → ℕ → ℕ → RpcPacket → Outcome RpcPacket
  unfolding get_meta get_body
  get_rpc_part binary cur_offset packet_size net_size packet = do
    meta_size ← or_fault (read 2 cur_offset binary)
    meta ← get_meta binary (cur_offset + 2) meta_size
    let body_size = u32 (packet_size + 2 ^ 32 - (2 + net_size + 2 + meta_size))
    get_body binary (cur_offset + 2 + meta_size) body_size (record packet { rpc_meta = meta })

  unfoldable pub get_special :
      Bytes → ℕ → ℕ → ℕ → NetInfo → RpcPacket → Outcome (NetInfo × RpcPacket)
  unfolding get_rpc_part
  get_special binary cur_offset packet_size net_size info packet =
      if leb info.net_type net_type_special
      then (do
        filled ← get_rpc_part binary cur_offset packet_size net_size packet
        ok (info, filled))
      else ok (info, packet)

  unfoldable pub get_message : Bytes → ℕ → NetInfo → RpcPacket → Outcome (NetInfo × RpcPacket)
  unfolding get_net_part get_special
  get_message binary offset net_info packet = do
    packet_size ← or_fault (read 4 offset binary)
    net_size ← or_fault (read 2 (offset + 4) binary)
    info ← get_net_part binary (offset + 6) net_size net_info
    get_special binary (offset + 6 + net_size) packet_size net_size info packet
