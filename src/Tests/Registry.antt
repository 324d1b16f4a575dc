-- ===== src/Tests/Registry.antt =====
-- A server that registers a service at the gateway, and a connection that is lost.
use frrpc.Prelude.{
  ℕ, ◌<◌, ◌≡◌, refl, arith, some, none, Option, [], ◌∷◌, true, string_key, if◌then◌else◌, List,
  nat_key,
}
use frrpc.Prelude.Outcome.{ok}
use frrpc.Prelude.Map.{lookup}
use frrpc.Wire.Bytes.{Bytes}
use frrpc.Wire.Layout.{framed}
use frrpc.Wire.Messages.{
  RouteCmdRequest, RouteServiceInfo, net_type_route_cmd, cmd_server_service_register,
}
use frrpc.Wire.External.{External}
use frrpc.Route.State.{RpcRoute, new_route, Network}
use frrpc.Route.ServiceInfos.{RouteServiceInfos}
use frrpc.Route.ServiceInfos.Agree.{count, count_values}
use frrpc.Route.Services.{add_service, find_service_socket}
use frrpc.Route.Services.Held.{IsServed}
use frrpc.Route.Services.Second.{second_service_outlives_socket}
use frrpc.Route.Receive.{on_disconnect}
use frrpc.Route.Receive.Events.{
  RouteEvent, after_events, new_route-IsServed, after_events-IsServed, registered_service_is_served,
}
use frrpc.Tests.Data.{sample, codec_of}

abbrev up : Network
up calls socket packet = true

abbrev request_parse : Bytes → Option RouteCmdRequest
request_parse [] = none
request_parse (c ∷ bs) = some (record { cmd = c; request_binary = bs })

abbrev service_serialize : RouteServiceInfo → Option Bytes
service_serialize m =
    if string_key.beq m.name "echo"
    then (if string_key.beq m.addr "a" then some (1 ∷ []) else none)
    else none

abbrev service_parse : Bytes → Option RouteServiceInfo
service_parse bs = some (record { name = "echo"; addr = "a" })

abbrev external : External
external = record sample {
  cmd_request =
      codec_of (λ m. some (m.cmd ∷ m.request_binary)) request_parse (λ m bs h. ground arith);
  service_info =
      codec_of service_serialize service_parse
        (λ m bs h. ground (arith, string_key.beq_iff m.name "echo", string_key.beq_iff m.addr "a"));
}

abbrev register_bytes : Bytes
register_bytes = framed (net_type_route_cmd ∷ cmd_server_service_register ∷ 1 ∷ []) []

abbrev one_server : List RouteEvent
one_server = RouteEvent.connected 3 ∷ RouteEvent.received 3 register_bytes 0 ∷ []

abbrev infos : RouteServiceInfos
infos = record {
  service_name = "echo";
  sockets = 3 ∷ [];
  addr_2socket = ("a", 3) ∷ [];
  cur_send_index = 0;
}

after_events-IsServed_example : IsServed (
    after_events external up
      (RouteEvent.connected 3
        ∷ RouteEvent.received 3 register_bytes 0
        ∷ RouteEvent.disconnected 3
        ∷ [])
      new_route)
after_events-IsServed_example =
    after_events-IsServed external up
      (RouteEvent.connected 3
        ∷ RouteEvent.received 3 register_bytes 0
        ∷ RouteEvent.disconnected 3
        ∷ [])
      new_route new_route-IsServed

registered :
    lookup "echo" (after_events external up one_server new_route).service_2info ≡ some infos
unfolding lookup frrpc.Route.Receive.on_receive frrpc.Prelude.Effect.◌>>=◌ frrpc.Wire.Bytes.le_bytes
    frrpc.Wire.Bytes.read frrpc.Wire.Bytes.le_value frrpc.Route.Forward.get_net_info
    frrpc.Route.Receive.dispatch frrpc.Route.Process.command_process add_service
    frrpc.Route.ServiceInfos.add_service_info frrpc.Prelude.Map.contains
    frrpc.Route.Receive.on_connect frrpc.Prelude.Map.update frrpc.Prelude.Map.insert
registered = refl

registered_service_is_served_example :
    (socket : ℕ) × ((find_service_socket "echo" ""
        (after_events external up one_server new_route)).0
      ≡ ok socket)
    × (0 < count socket (3 ∷ []))
    × (0 < count_values socket (("a", 3) ∷ []))
registered_service_is_served_example =
    registered_service_is_served external up one_server "echo" infos registered

abbrev echo_server : RpcRoute
echo_server = (add_service 3 "echo" "a" new_route).1

named : lookup 3 echo_server.service_socket_2name ≡ some "echo"
unfolding lookup add_service frrpc.Prelude.Map.insert
named = refl

added : (add_service 3 "time" "a" echo_server).0 ≡ ok tt
unfolding add_service frrpc.Route.ServiceInfos.add_service_info frrpc.Prelude.Map.contains
    frrpc.Prelude.Map.update frrpc.Prelude.Map.insert
added = refl

second_service_outlives_socket_example :
    (find_service_socket "time" "a" (on_disconnect 3 (add_service 3 "time" "a" echo_server).1)).0
    ≡ ok 3
second_service_outlives_socket_example =
    second_service_outlives_socket 3 "echo" "time" "a" echo_server named refl refl added
