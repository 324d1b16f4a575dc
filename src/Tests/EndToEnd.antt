-- ===== src/Tests/EndToEnd.antt =====
-- A call of the channel at socket 9, and the answer.
use frrpc.Prelude.{◌≡◌, refl, arith, some, [], ◌∷◌, ◌++◌, length, true}
use frrpc.Prelude.Outcome.{ok}
use frrpc.Wire.Bytes.{Bytes}
use frrpc.Wire.Packet.{event_method, new_packet}
use frrpc.Wire.Layout.{framed, rpc_part}
use frrpc.Wire.RoundTrip.{filled}
use frrpc.Route.State.{Network, RpcRoute, NetCall, new_route}
use frrpc.Route.Services.{get_server_socket, bound_socket}
use frrpc.Route.Process.{route_process}
use frrpc.Route.Process.Delivery.{with_calls, sends}
use frrpc.Net.LinkId.{build_link_id}
use frrpc.Net.Base.{Received}
use frrpc.Net.ChannelNet
use frrpc.Net.ServerClient
use frrpc.EndToEnd.{routed, call_arrives, answer_arrives}
use frrpc.Tests.Data.{
  sample, fifo, all_sent, bytes_codec, call_meta, call_meta_bytes, call_net, relayed_net, call_body,
}

abbrev up : Network
up calls socket packet = true

-- The channel at socket 9 is bound to the server at socket 3.
abbrev bound_gateway : RpcRoute
bound_gateway = record new_route { channel_service_register = (9, ("echo", 3) ∷ []) ∷ [] }

abbrev nothing_yet : Received
nothing_yet = record { packet_queue = []; read_size = 0 }

bound_to_three : get_server_socket 9 "echo" bound_gateway ≡ (ok 3, bound_gateway)
unfolding get_server_socket bound_socket frrpc.Prelude.Map.lookup
bound_to_three = refl

call_arrives_example :
    ((ChannelNet.send sample all_sent bytes_codec call_meta call_body []).1
      ≡ [] ++ some (framed call_net (rpc_part call_meta_bytes call_body)) ∷ [])
    × (route_process sample up 9
          (framed call_net (rpc_part call_meta_bytes call_body))
          0
          (routed (1 ∷ 1 ∷ 0 ∷ []))
          bound_gateway
        ≡ (
          ok tt,
          with_calls bound_gateway (
              NetCall.send 3 (some (framed relayed_net (rpc_part call_meta_bytes call_body))) ∷ []),
        ))
    × (ServerClient.on_receive sample fifo 1 0
          (framed relayed_net (rpc_part call_meta_bytes call_body))
          nothing_yet
        ≡ (
          ok tt,
          record {
            packet_queue =
                record {
                  link_id = build_link_id 1 0 9;
                  net_event = event_method;
                  rpc_meta = call_meta;
                  binary = some call_body;
                }
                ∷ [];
            read_size = length (framed relayed_net (rpc_part call_meta_bytes call_body));
          },
        ))
call_arrives_example =
    call_arrives sample up all_sent fifo bytes_codec call_meta call_body [] (1 ∷ 1 ∷ 0 ∷ [])
      call_net (1 ∷ 1 ∷ 9 ∷ []) relayed_net call_meta_bytes 5 (6 ∷ []) 9 3 1 0 bound_gateway
      bound_gateway nothing_yet refl refl refl refl refl refl (omega arith) (omega arith)
      (omega arith) (omega arith) bound_to_three refl

abbrev answer_net : Bytes
answer_net = 1 ∷ 0 ∷ 0 ∷ 0 ∷ 9 ∷ []

answer_arrives_example :
    ((ServerClient.send sample all_sent 1 0 bytes_codec
        (build_link_id 1 0 9 ∷ [])
        call_meta
        call_body
        []).1
      ≡ [] ++ some (framed answer_net (rpc_part call_meta_bytes call_body)) ∷ [])
    × (route_process sample up 3
          (framed answer_net (rpc_part call_meta_bytes call_body))
          0
          (routed (0 ∷ 0 ∷ 0 ∷ 9 ∷ []))
          bound_gateway
        ≡ (
          ok tt,
          with_calls bound_gateway
              (sends (9 ∷ []) (some (framed answer_net (rpc_part call_meta_bytes call_body)))),
        ))
    × (ChannelNet.on_receive sample fifo
          (framed answer_net (rpc_part call_meta_bytes call_body))
          nothing_yet
        ≡ (
          ok tt,
          record {
            packet_queue = filled call_meta call_body (new_packet 0 event_method) ∷ [];
            read_size = length (framed answer_net (rpc_part call_meta_bytes call_body));
          },
        ))
answer_arrives_example =
    answer_arrives sample up all_sent fifo bytes_codec call_meta call_body [] (0 ∷ 0 ∷ 0 ∷ 9 ∷ [])
      answer_net call_meta_bytes call_body 3 9 1 0 bound_gateway nothing_yet (omega arith) refl refl
      refl refl (omega arith) (omega arith) (omega arith) refl
