-- ===== src/Tests/Beat.antt =====
-- A heart at a gateway, a packet for the links of two gateways, and the bytes that are read.
use frrpc.Prelude.{
  ℕ, ◌≡◌, ◌≤◌, refl, arith, some, List, [], ◌∷◌, length, true, get_elem?, if◌then◌else◌, ◌++◌,
}
use frrpc.Prelude.Outcome.{ok}
use frrpc.Wire.Bytes.{Bytes}
use frrpc.Wire.Messages.{net_type_heart}
use frrpc.Wire.Layout.{framed, rpc_part}
use frrpc.Heart.Packet.{build_heart_packet}
use frrpc.Net.Base.{Received}
use frrpc.Net.ChannelNet
use frrpc.Net.ServerClient
use frrpc.Net.ServerRoute.{RpcServerRoute, send_many}
use frrpc.Net.ServerRoute.Several.{has_link, send_many_lem}
use frrpc.Net.ReadSize.{ends_read_within}
use frrpc.Route.State.{Network, new_route}
use frrpc.Route.Receive.{on_receive}
use frrpc.Route.Receive.Bounds.{gateway_reads_within}
use frrpc.EndToEnd.HeartBeat.{after_heart, heart_arrives}
use frrpc.Tests.Data.{
  sample, fifo, all_sent, bytes_codec, call_meta, call_body, call_bytes, call_meta_bytes,
}

abbrev up : Network
up calls socket packet = true

abbrev heart_net : Bytes
heart_net = net_type_heart ∷ []

heart_arrives_example :
    (build_heart_packet sample ≡ some (framed heart_net []))
    × (on_receive sample up 5 (framed heart_net []) 0 new_route
        ≡ (ok (length (framed heart_net [])), after_heart sample up 5 heart_net new_route))
heart_arrives_example =
    heart_arrives sample up 5 heart_net 0 new_route refl (omega arith) (omega arith) refl

heart_read : (on_receive sample up 5 (framed heart_net []) 0 new_route).0 ≡ ok 7
unfolding on_receive frrpc.Prelude.Effect.◌>>=◌ frrpc.Wire.Bytes.le_bytes frrpc.Wire.Bytes.read
    frrpc.Wire.Bytes.le_value frrpc.Route.Forward.get_net_info frrpc.Route.Receive.dispatch
    frrpc.Route.Process.heart_process frrpc.Route.Forward.whole_packet frrpc.Route.State.send_to
heart_read = refl

gateway_reads_within_example : 7 ≤ length (framed heart_net [])
gateway_reads_within_example =
    gateway_reads_within sample up 5 (framed heart_net []) 0 7 new_route (omega arith) heart_read

abbrev fresh : Received
fresh = record { packet_queue = []; read_size = 0 }

ends_read_within_example :
    ((ServerClient.on_receive sample fifo 1 0 call_bytes fresh).1.read_size ≤ length call_bytes)
    × ((ChannelNet.on_receive sample fifo call_bytes fresh).1.read_size ≤ length call_bytes)
ends_read_within_example = ends_read_within sample fifo call_bytes 1 0 fresh refl

abbrev two_gateways : RpcServerRoute
two_gateways = record { route_client_list = [] ∷ [] ∷ []; route_length = 1 }

-- Two links of gateway 1.
abbrev links : List ℕ
links = 17 ∷ 14 ∷ []

abbrev sent_binary : Bytes
sent_binary = 0 ∷ 0 ∷ 0 ∷ 7 ∷ 4 ∷ []

-- The gateway is given one packet, with the sockets 7 and 4.
send_many_lem_example :
    get_elem?
      (send_many sample all_sent 1 bytes_codec links call_meta call_body
        two_gateways).1.route_client_list
      1
    ≡ some (
        if has_link 1 1 links
        then [] ++ some (framed (1 ∷ sent_binary) (rpc_part call_meta_bytes call_body)) ∷ []
        else [])
unfolding frrpc.Net.LinkId.get_socket frrpc.Net.LinkId.get_route_id
send_many_lem_example =
    send_many_lem sample all_sent 1 bytes_codec links call_meta call_body two_gateways 1 []
      sent_binary (1 ∷ sent_binary) call_meta_bytes call_body refl refl refl refl refl (omega arith)

nothing_for_0 :
    get_elem?
      (send_many sample all_sent 1 bytes_codec links call_meta call_body
        two_gateways).1.route_client_list
      0
    ≡ some []
unfolding send_many frrpc.Prelude.Map.insert frrpc.Net.LinkId.get_route_id
nothing_for_0 = refl
