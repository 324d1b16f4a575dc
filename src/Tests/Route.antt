-- ===== src/Tests/Route.antt =====
-- A gateway in front of two servers of one service.
use frrpc.Heart.{update_socket}
use frrpc.Prelude.{
  ℕ, suc, ◌+◌, ◌<◌, ◌%◌, ◌≡◌, ◌≢◌, refl, arith, some, none, [], ◌∷◌, ◌++◌, true, false, length,
  get_elem?, map, nat_key, string_key, if◌then◌else◌,
}
use frrpc.Prelude.Outcome.{ok, exhausted}
use frrpc.Prelude.Map.{keep_old}
use frrpc.Wire.Bytes.{Bytes}
use frrpc.Wire.Messages.{NetInfo, RouteNetInfo, empty_route_net_info}
use frrpc.Wire.Layout.{framed, rpc_part}
use frrpc.Route.State.{Network, RpcRoute, NetCall, new_route}
use frrpc.Route.ServiceInfos.{RouteServiceInfos, or_null, get_service_socket, add_service_info}
use frrpc.Route.ServiceInfos.Balance.{spin, once_each}
use frrpc.Route.Services.{
  add_service, find_service_socket, get_server_socket, bound_socket, is_service_socket,
}
use frrpc.Route.Services.Registry.{registered_is_found}
use frrpc.Route.Services.Binding.{lost_service_stays_bound}
use frrpc.Route.Forward.Relay.{IsAt}
use frrpc.Route.Process.{route_process}
use frrpc.Route.Process.Delivery.{with_calls, channel_packet_delivered}
use frrpc.Route.Receive.{dispatch, on_receive, on_disconnect}
use frrpc.Route.Receive.Fuel.{on_receive-Settles}
use frrpc.Route.Receive.Packets.{Runs, whole_packets_consumed, packets_before_a_part_kept}
use frrpc.Tests.Data.{
  sample, call_meta_bytes, call_info, call_net, relayed_net, call_body, call_bytes, from_channel,
}

abbrev up : Network
up calls socket packet = true

abbrev echo_infos : RouteServiceInfos
echo_infos = record {
  service_name = "echo";
  sockets = 3 ∷ 4 ∷ [];
  addr_2socket = ("a", 3) ∷ ("b", 4) ∷ [];
  cur_send_index = 0;
}

-- The channel at socket 8 is bound to the server at socket 3.
abbrev gateway : RpcRoute
gateway = record new_route {
  service_2info = ("echo", echo_infos) ∷ [];
  service_socket_2name = (3, "echo") ∷ (4, "echo") ∷ [];
  channel_service_register = (8, ("echo", 3) ∷ []) ∷ [];
}

abbrev moved : RpcRoute
moved = record gateway { service_2info = ("echo", record echo_infos { cur_send_index = 1 }) ∷ [] }

abbrev call_rest : Bytes
call_rest = rpc_part call_meta_bytes call_body

call-IsAt : IsAt call_bytes 0 call_net call_rest []
unfolding frrpc.Wire.Bytes.le_bytes
call-IsAt = record { at = refl; net_fits = omega arith; fits = omega arith }

moves : get_server_socket 9 "echo" gateway ≡ (ok 4, moved)
unfolding get_server_socket find_service_socket bound_socket get_service_socket
    frrpc.Prelude.Map.lookup frrpc.Prelude.Map.update
moves = refl

channel_packet_delivered_example :
    route_process sample up 9 call_bytes 0 call_info gateway
    ≡ (ok tt, with_calls moved (NetCall.send 4 (some (framed relayed_net call_rest)) ∷ []))
unfolding frrpc.Wire.Bytes.le_bytes
channel_packet_delivered_example =
    channel_packet_delivered sample up call_bytes 0 call_net call_rest [] call-IsAt 9 call_info
      from_channel (1 ∷ 1 ∷ 9 ∷ []) (1 ∷ 1 ∷ 1 ∷ 9 ∷ []) gateway 4 moved refl refl refl refl
      (omega arith) (omega arith) moves

abbrev to_channels : RouteNetInfo
to_channels = record empty_route_net_info { target_sockets = 9 ∷ 8 ∷ [] }

abbrev answer_info : NetInfo
answer_info = record { net_type = 1; net_binary = 0 ∷ 0 ∷ 0 ∷ 9 ∷ 8 ∷ [] }

abbrev answer_net : Bytes
answer_net = 1 ∷ 0 ∷ 0 ∷ 0 ∷ 9 ∷ 8 ∷ []

abbrev answer_bytes : Bytes
answer_bytes = framed answer_net call_rest

on_receive-Settles_example :
    (on_receive sample up 3 (call_bytes ++ 1 ∷ 2 ∷ []) 0 gateway).0 ≢ exhausted
on_receive-Settles_example = on_receive-Settles sample up 3 (call_bytes ++ 1 ∷ 2 ∷ []) 0 gateway

added : (add_service 5 "echo" "c" gateway).0 ≡ ok tt
unfolding add_service add_service_info frrpc.Prelude.Map.contains
added = refl

registered_is_found_example :
    (find_service_socket "echo" "c" (add_service 5 "echo" "c" gateway).1).0 ≡ ok 5
registered_is_found_example = registered_is_found 5 "echo" "c" gateway refl added

known : is_service_socket gateway 3 ≡ true
unfolding is_service_socket frrpc.Prelude.Map.contains
known = refl

bound : bound_socket gateway 8 "echo" ≡ some 3
unfolding bound_socket frrpc.Prelude.Map.lookup
bound = refl

lost_service_stays_bound_example : (get_server_socket 8 "echo" (on_disconnect 3 gateway)).0 ≡ ok 3
lost_service_stays_bound_example = lost_service_stays_bound 8 3 "echo" gateway known bound

unknown : is_service_socket gateway 8 ≡ false
unfolding is_service_socket frrpc.Prelude.Map.contains
unknown = refl

once_each_example :
    ((m : ℕ)
      → (get_service_socket (spin m echo_infos) "").0
        ≡ or_null (get_elem? echo_infos.sockets (spin (suc m) echo_infos).cur_send_index))
    × ((n : ℕ) × (n < 2)
        × ((get_service_socket (spin n echo_infos) "").0 ≡ or_null (get_elem? echo_infos.sockets 1))
        × ((spin (suc n) echo_infos).cur_send_index ≡ 1)
        × ((m : ℕ) → m < 2 → (spin (suc m) echo_infos).cur_send_index ≡ 1 → m ≡ n))
once_each_example = once_each echo_infos 1 (omega arith) (omega arith)

abbrev heard : RpcRoute → RpcRoute
heard route = record route { rpc_heart = update_socket 9 route.rpc_heart }

abbrev relayed : RpcRoute
relayed = with_calls (heard moved) (NetCall.send 4 (some (framed relayed_net call_rest)) ∷ [])

heard_moves : get_server_socket 9 "echo" (heard gateway) ≡ (ok 4, heard moved)
unfolding get_server_socket find_service_socket bound_socket get_service_socket
    frrpc.Prelude.Map.lookup frrpc.Prelude.Map.update
heard_moves = refl

one_call : (ys : Bytes) → Runs sample up 9 (call_bytes ++ ys) 0 (heard gateway) 18 relayed
unfolding dispatch frrpc.Wire.Bytes.le_bytes
one_call ys =
    let at : IsAt (call_bytes ++ ys) 0 call_net call_rest ys = record {
      at = refl;
      net_fits = omega arith;
      fits = omega arith;
    } in
    Runs.next call_net call_rest ys call_info relayed at (omega arith) (omega arith) refl
      (channel_packet_delivered sample up (call_bytes ++ ys) 0 call_net call_rest ys at 9 call_info
        from_channel (1 ∷ 1 ∷ 9 ∷ []) (1 ∷ 1 ∷ 1 ∷ 9 ∷ []) (heard gateway) 4 (heard moved) refl refl
        refl refl (omega arith) (omega arith) heard_moves)
      Runs.done

whole_packets_consumed_example :
    on_receive sample up 9 (call_bytes ++ []) 0 gateway ≡ (ok (length call_bytes), relayed)
unfolding frrpc.Wire.Bytes.le_bytes
whole_packets_consumed_example =
    whole_packets_consumed sample up 9 (call_bytes ++ []) 0 gateway relayed (one_call [])

packets_before_a_part_kept_example :
    on_receive sample up 9 (call_bytes ++ 9 ∷ 0 ∷ 0 ∷ 0 ∷ 1 ∷ []) 5 gateway ≡ (ok 5, relayed)
unfolding frrpc.Wire.Bytes.le_bytes
packets_before_a_part_kept_example =
    packets_before_a_part_kept sample up 9 (call_bytes ++ 9 ∷ 0 ∷ 0 ∷ 0 ∷ 1 ∷ []) 5 18 9 (1 ∷ [])
      gateway relayed (one_call (9 ∷ 0 ∷ 0 ∷ 0 ∷ 1 ∷ []))
      (record {
        at = refl;
        some_of_it = omega arith;
        nonzero = omega arith;
        small = omega arith;
        short = omega arith;
      })
