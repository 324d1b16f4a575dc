-- ===== src/System/Relay.antt =====
-- One packet at the gateway: `OnReceive` of a buffer that is one packet of a channel or of a server.
use frrpc.Prelude.{
  ℕ, ◌+◌, ◌<◌, ◌≡◌, ◌∙◌, refl, arith, some, String, [], ◌∷◌, length, ap, Option-cases, inl, inr,
  sym, string_key,
}
use mathlib.Core.List.{append-nil}
use mathlib.Core.Path.{subst}
use frrpc.Prelude.Outcome.{ok}
use frrpc.Prelude.Map.{lookup}
use frrpc.Wire.Bytes.{Bytes}
use frrpc.Wire.Messages.{NetInfo, RpcMeta}
use frrpc.Wire.External.{External}
use frrpc.Wire.Layout.{framed, length-framed}
use frrpc.Heart.{RpcHeart, update_socket}
use frrpc.Route.State.{Network, RpcRoute, NetCall}
use frrpc.Route.Forward.Relay.{IsAt}
use frrpc.Route.Services.{find_service_socket, get_server_socket, bound_socket}
use frrpc.Route.Process.Delivery.{
  with_calls, sends, channel_packet_delivered, server_packet_delivered,
}
use frrpc.Route.Receive.{dispatch, on_receive, net_packet_max_size}
use frrpc.Route.Receive.Packets.{Runs, next, packet_size, whole_packets_consumed}
use frrpc.EndToEnd.{to_service, to_channel, routed}

abbrev pub with_heart : RpcHeart → RpcRoute → RpcRoute
with_heart heart route = record route { rpc_heart = heart }

find_service_socket-heart :
    (name addr : String) (heart : RpcHeart) (route : RpcRoute)
    → find_service_socket name addr (with_heart heart route) ≡ (
      (find_service_socket name addr route).0,
      with_heart heart (find_service_socket name addr route).1,
    )
unfolding find_service_socket
find_service_socket-heart name addr heart route =
    elim (Option-cases (lookup name route.service_2info)) [
      | inl missing ↦ rw (find_service_socket, missing)
      | inr (infos, found) ↦ rw (find_service_socket, found)
    ]

get_server_socket-heart :
    (channel : ℕ) (name : String) (heart : RpcHeart) (route : RpcRoute)
    → get_server_socket channel name (with_heart heart route) ≡ (
      (get_server_socket channel name route).0,
      with_heart heart (get_server_socket channel name route).1,
    )
unfolding get_server_socket bound_socket
get_server_socket-heart channel name heart route =
    ground (arith, find_service_socket-heart name "" heart route)

alone-IsAt :
    (net rest : Bytes)
    → packet_size net rest < net_packet_max_size
    → IsAt (framed net rest) 0 net rest []
alone-IsAt net rest fits = record {
  at = sym (simp append-nil);
  net_fits = omega arith;
  fits = omega arith;
}

module _ (ext : External) (network : Network) where
  one_packet :
      (socket : ℕ) (net rest : Bytes) (info : NetInfo) (read_size : ℕ) (route last : RpcRoute)
      → 0 < length net
      → packet_size net rest < net_packet_max_size
      → ext.net_info.serialize info ≡ some net
      → dispatch ext network socket
          (framed net rest)
          0
          info
          (record route { rpc_heart = update_socket socket route.rpc_heart })
        ≡ (ok tt, last)
      → on_receive ext network socket (framed net rest) read_size route
        ≡ (ok (length (framed net rest)), last)
  one_packet socket net rest info read_size route last pos fits s d =
      let total : 0 + (packet_size net rest + 4) ≡ length (framed net rest) =
        omega (arith, length-framed net rest) in
      whole_packets_consumed ext network socket (framed net rest) read_size route last (
        subst
          (λ end.
            Runs ext network socket (framed net rest) 0
              (record route { rpc_heart = update_socket socket route.rpc_heart }) end last)
          total (next net rest [] info last (alone-IsAt net rest fits) pos fits s d Runs.done))

  -- A packet of a channel.
  pub channel_packet_relayed :
      (socket target : ℕ) (meta : RpcMeta)
      (rest sent_binary sent_net relayed_binary relayed_net : Bytes) (route found : RpcRoute)
      → ext.route_net_info.serialize (to_service meta) ≡ some sent_binary
      → ext.net_info.serialize (routed sent_binary) ≡ some sent_net
      → ext.route_net_info.serialize (record (to_service meta) { source_socket = socket })
        ≡ some relayed_binary
      → ext.net_info.serialize (routed relayed_binary) ≡ some relayed_net
      → 0 < length sent_net
      → packet_size sent_net rest < net_packet_max_size
      → packet_size relayed_net rest < net_packet_max_size
      → get_server_socket socket meta.service_name route ≡ (ok target, found)
      → (on_receive ext network socket (framed sent_net rest) 0 route).1
        ≡ with_calls
            (with_heart (update_socket socket route.rpc_heart) found)
            (NetCall.send target (some (framed relayed_net rest)) ∷ [])
  unfolding dispatch
  channel_packet_relayed socket target meta rest sent_binary sent_net relayed_binary relayed_net
        route found s sn r rn pos fits fits' g =
      let heart = update_socket socket route.rpc_heart in
      let g' =
        get_server_socket-heart socket meta.service_name heart route
        ∙ ap (λ q. (q.0, with_heart heart q.1)) g in
      ap (λ q. q.1)
        (one_packet socket sent_net rest (routed sent_binary) 0 route _ pos fits sn (
          channel_packet_delivered ext network (framed sent_net rest) 0 sent_net rest []
            (alone-IsAt sent_net rest fits) socket (routed sent_binary) (to_service meta)
            relayed_binary relayed_net (with_heart heart route) target (with_heart heart found)
            (ext.route_net_info.parse-serialize _ _ s) refl r rn (omega arith) (omega arith) g'))

  -- A packet of a server for one channel.
  pub server_packet_relayed :
      (socket target : ℕ) (rest sent_binary sent_net : Bytes) (route : RpcRoute)
      → ext.route_net_info.serialize (to_channel target) ≡ some sent_binary
      → ext.net_info.serialize (routed sent_binary) ≡ some sent_net
      → 0 < length sent_net
      → packet_size sent_net rest < net_packet_max_size
      → (on_receive ext network socket (framed sent_net rest) 0 route).1
        ≡ with_calls
            (with_heart (update_socket socket route.rpc_heart) route)
            (sends (target ∷ []) (some (framed sent_net rest)))
  unfolding dispatch
  server_packet_relayed socket target rest sent_binary sent_net route s sn pos fits =
      ap (λ q. q.1)
        (one_packet socket sent_net rest (routed sent_binary) 0 route _ pos fits sn (
          server_packet_delivered ext network (framed sent_net rest) 0 sent_net rest []
            (alone-IsAt sent_net rest fits) socket (routed sent_binary) (to_channel target)
            (with_heart (update_socket socket route.rpc_heart) route)
            (ext.route_net_info.parse-serialize _ _ s) refl))
