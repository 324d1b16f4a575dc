-- ===== src/EndToEnd/HeartBeat.antt =====
-- A heart on its way: `BuildHeartPacket` of a client, `OnReceive`, `HeartProcess` and the heart beat
-- of the gateway.
use frrpc.Prelude.{ℕ, ◌+◌, ◌<◌, ◌≡◌, true, some, [], ◌∷◌, ◌++◌, arith, length, sym}
use mathlib.Core.List.{append-nil}
use mathlib.Core.Path.{subst}
use frrpc.Prelude.Outcome.{ok}
use frrpc.Prelude.Effect.{◌>>=◌}
use frrpc.Wire.Bytes.{Bytes}
use frrpc.Wire.External.{External}
use frrpc.Wire.Layout.{framed, length-framed, build_from_net_info-framed}
use frrpc.Heart.{update_socket}
use frrpc.Heart.Packet.{heart_info, build_heart_packet}
use frrpc.Net.Base.{net_packet_max_size}
use frrpc.Route.State.{Network, RpcRoute, send, send_to}
use frrpc.Route.Forward.Relay.{IsAt, whole_packet_at}
use frrpc.Route.Process.{heart_process}
use frrpc.Route.Receive.{dispatch, on_receive}
use frrpc.Route.Receive.Packets.{Runs, next, whole_packets_consumed}

module _ (ext : External) (network : Network) (socket : ℕ) (net : Bytes) where
  abbrev pub packet : Bytes
  packet = framed net []

  packet-IsAt : 2 + length net < net_packet_max_size → IsAt packet 0 net [] []
  packet-IsAt fits = record {
    at = sym (append-nil packet);
    net_fits = omega arith;
    fits = omega arith;
  }

  -- The heart was heard, and is sent back.
  abbrev pub after_heart : RpcRoute → RpcRoute
  after_heart route = record route {
    net_server = route.net_server ++ send socket (some packet) ∷ [];
    rpc_heart = update_socket socket route.rpc_heart;
  }

  abbrev heard : RpcRoute → RpcRoute
  heard route = record route { rpc_heart = update_socket socket route.rpc_heart }

  dispatch_heart :
      (route : RpcRoute)
      → 2 + length net < net_packet_max_size
      → network route.net_server socket (some packet) ≡ true
      → dispatch ext network socket packet 0 heart_info (heard route) ≡ (ok tt, after_heart route)
  unfolding dispatch heart_process send_to ◌>>=◌
  dispatch_heart route fits sends =
      rw (whole_packet_at packet 0 net [] [] (packet-IsAt fits), heart_process) (rw sends)

  heart-Runs :
      (route : RpcRoute)
      → ext.net_info.serialize heart_info ≡ some net
      → 0 < length net
      → 2 + length net < net_packet_max_size
      → network route.net_server socket (some packet) ≡ true
      → Runs ext network socket packet 0 (heard route) (length packet) (after_heart route)
  heart-Runs route s pos fits sends =
      let total : 0 + ((2 + length net + 0) + 4) ≡ length packet =
        omega (arith, length-framed net []) in
      subst (λ end. Runs ext network socket packet 0 (heard route) end (after_heart route)) total
        (next net [] [] heart_info (after_heart route) (packet-IsAt fits) pos (omega arith) s
          (dispatch_heart route fits sends) Runs.done)

  -- A heart beat from end to end. Where the net info of a heart serializes, is not empty and stays
  -- below 4094 bytes, the client's packet is consumed in full by the gateway; where the send
  -- succeeds, the gateway sends the packet back to the socket that it came from, and what changes
  -- otherwise is that the socket was heard.
  pub heart_arrives :
      (read_size : ℕ) (route : RpcRoute)
      → ext.net_info.serialize heart_info ≡ some net
      → 0 < length net
      → 2 + length net < net_packet_max_size
      → network route.net_server socket (some packet) ≡ true
      → (build_heart_packet ext ≡ some packet)
        × (on_receive ext network socket packet read_size route
            ≡ (ok (length packet), after_heart route))
  unfolding build_heart_packet
  heart_arrives read_size route s pos fits sends = (
    build_from_net_info-framed ext heart_info net s (omega arith),
    whole_packets_consumed ext network socket packet read_size route (after_heart route)
        (heart-Runs route s pos fits sends),
  )
