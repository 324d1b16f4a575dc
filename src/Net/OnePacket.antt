-- ===== src/Net/OnePacket.antt =====
-- A buffer that holds one packet with an RPC part, and nothing else.
use frrpc.Prelude.{◌+◌, ◌<◌, ◌≡◌, refl, [], some, arith, length, ap, ◌∙◌, sym}
use mathlib.Core.List.{append-nil}
use frrpc.Prelude.Outcome.{ok}
use frrpc.Wire.Bytes.{Bytes, read, read_u32}
use frrpc.Wire.Messages.{NetInfo, RpcMeta, net_type_route, empty_net_info}
use frrpc.Wire.External.{External}
use frrpc.Wire.Layout.{framed, rpc_part, length-rpc_part, length-framed}
use frrpc.Wire.RoundTrip.{get_message_at, filled}
use frrpc.Wire.Packet.{get_message, new_packet, event_method}
use frrpc.Net.Base.{net_packet_max_size}

module _ (net bytes : Bytes) where
  pub read_size_of :
      (body : Bytes)
      → 4 + length net + length bytes + length body < net_packet_max_size
      → read 4 0 (framed net (rpc_part bytes body))
        ≡ some (4 + length net + length bytes + length body)
  read_size_of body fits =
      read_u32 0 _ _ _ refl (omega (arith, length-rpc_part bytes body))
      ∙ ap some (omega (arith, length-rpc_part bytes body))

  pub length_of :
      (body : Bytes)
      → length (framed net (rpc_part bytes body)) ≡ 8 + length net + length bytes + length body
  length_of body =
      omega (arith, length-framed net (rpc_part bytes body), length-rpc_part bytes body)

module _ (ext : External) (info : NetInfo) (meta : RpcMeta) (net bytes : Bytes)
    (typed : info.net_type ≡ net_type_route) (serialized : ext.net_info.serialize info ≡ some net)
    (serialized_meta : ext.rpc_meta.serialize meta ≡ some bytes) (some_net : 0 < length net)
    (some_meta : 0 < length bytes) where
  pub message_of :
      (body : Bytes)
      → 4 + length net + length bytes + length body < net_packet_max_size
      → get_message ext
          (framed net (rpc_part bytes body))
          0
          empty_net_info
          (new_packet 0 event_method)
        ≡ ok (info, filled meta body (new_packet 0 event_method))
  message_of body fits =
      get_message_at ext _ 0 info empty_net_info meta net bytes body [] _ (sym (simp append-nil))
        some_net (omega arith) some_meta (omega arith) (omega arith) serialized serialized_meta
        (rw typed (omega arith))
