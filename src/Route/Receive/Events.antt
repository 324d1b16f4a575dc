-- ===== src/Route/Receive/Events.antt =====
-- Any callbacks of frnet, rounds of the heart check, starts and stops, one after another, on the
-- gateway of src/route/route.{h,cpp}.
use frrpc.Prelude.{
  ℕ, List, [], ◌∷◌, ◌+◌, ◌%◌, ◌<◌, ◌≡◌, some, String, Bool, arith, length, get_elem?, zero, suc,
  string_key, nat_key, true, false, inl, inr, Bool-cases, sym,
}
use frrpc.Prelude.Outcome.{ok}
use frrpc.Prelude.Map.{lookup}
use frrpc.Wire.Bytes.{Bytes}
use frrpc.Wire.External.{External}
use frrpc.Heart.{check_hearts}
use frrpc.Route.State.{Network, RpcRoute, new_route}
use frrpc.Route.ServiceInfos.{RouteServiceInfos, get_service_socket, or_null}
use native.Mathlib.Nat.{mod-lt}
use frrpc.Route.ServiceInfos.Balance.{takes_next}
use frrpc.Heart.{del_socket}
use frrpc.Route.ServiceInfos.Agree.{count, count_values}
use frrpc.Route.Services.{find_service_socket, is_service_socket}
use frrpc.Route.Services.Held.{IsHeld, IsServed, delete_service-IsServed}
use frrpc.Route.Process.{disconnect_all}
use frrpc.Route.Receive.{on_receive, on_connect, on_disconnect, on_close, start, stop}
use frrpc.Route.Receive.Served.{on_receive-IsServed, disconnect_all-IsServed}

pub data RouteEvent : Type 0 where
  connected : ℕ → RouteEvent
  received : ℕ → Bytes → ℕ → RouteEvent
  disconnected : ℕ → RouteEvent
  closed : RouteEvent
  started : Bool → RouteEvent
  stopped : RouteEvent
  hearts_checked : RouteEvent

pub new_route-IsServed : IsServed new_route
unfolding lookup
new_route-IsServed = record { entries = λ name infos e. absurd (cc) }

module _ (ext : External) (network : Network) where
  -- The sockets that are silent are disconnected, beside what the check does to its own state.
  unfoldable pub check_route : RpcRoute → RpcRoute
  check_route route =
      let (silent, heart) = check_hearts route.rpc_heart in
      (disconnect_all ext network silent (record route { rpc_heart = heart })).1

  abbrev pub after_event : RouteEvent → RpcRoute → RpcRoute
  after_event (connected socket) route = on_connect socket route
  after_event (received socket binary read_size) route =
      (on_receive ext network socket binary read_size route).1
  after_event (disconnected socket) route = on_disconnect socket route
  after_event closed route = on_close route
  after_event (started listens) route = start listens route
  after_event stopped route = stop route
  after_event hearts_checked route = check_route route

  abbrev pub after_events : List RouteEvent → RpcRoute → RpcRoute
  after_events [] route = route
  after_events (event ∷ events) route = after_events events (after_event event route)

  on_disconnect-IsServed :
      (socket : ℕ) (route : RpcRoute) → IsServed route → IsServed (on_disconnect socket route)
  unfolding on_disconnect
  on_disconnect-IsServed socket route h =
      let heard = record route { rpc_heart = del_socket socket route.rpc_heart } in
      let still : IsServed heard = record { entries = h.entries } in
      elim (Bool-cases (is_service_socket heard socket)) [
        | inl known ↦ rw (on_disconnect, known) ((delete_service-IsServed socket).at heard still)
        | inr unknown ↦ rw (on_disconnect, unknown) (record { entries = h.entries })
      ]

  start-IsServed : (b : Bool) (route : RpcRoute) → IsServed route → IsServed (start b route)
  unfolding start
  start-IsServed true route h = record { entries = h.entries }
  start-IsServed false route h = h

  after_event-IsServed :
      (event : RouteEvent) (route : RpcRoute) → IsServed route → IsServed (after_event event route)
  unfolding on_connect on_close stop check_route lookup
  after_event-IsServed (connected socket) route h = record { entries = h.entries }
  after_event-IsServed (received socket binary read_size) route h =
      (on_receive-IsServed ext network socket binary read_size).at route h
  after_event-IsServed (disconnected socket) route h = on_disconnect-IsServed socket route h
  after_event-IsServed closed route h = record { entries = λ name infos e. absurd (cc) }
  after_event-IsServed (started b) route h = start-IsServed b route h
  after_event-IsServed stopped route h = record { entries = h.entries }
  after_event-IsServed hearts_checked route h =
      (disconnect_all-IsServed ext network _).at _ (record { entries = h.entries })

  -- Whatever callbacks, rounds of the heart check, starts and stops follow one another, every
  -- registered service of the gateway keeps a socket, and keeps each socket as often in its list as
  -- it is the value of one of its addresses.
  pub after_events-IsServed :
      (events : List RouteEvent) (route : RpcRoute)
      → IsServed route
      → IsServed (after_events events route)
  after_events-IsServed [] route h = h
  after_events-IsServed (event ∷ events) route h =
      after_events-IsServed events (after_event event route) (after_event-IsServed event route h)

  count-get_elem? : (xs : List ℕ) (i : ℕ) → i < length xs → 0 < count (or_null (get_elem? xs i)) xs
  unfolding count
  count-get_elem? [] i h = elim h [ ]
  count-get_elem? (x ∷ xs) zero h = ground arith
  count-get_elem? (x ∷ xs) (suc i) h = ground (arith, count-get_elem? xs i (omega arith))

  picked :
      (infos : RouteServiceInfos)
      → IsHeld infos
      → (0 < count (get_service_socket infos "").0 infos.sockets)
        × (0 < count_values (get_service_socket infos "").0 infos.addr_2socket)
  picked infos h =
      let size = length infos.sockets in
      let within =
        count-get_elem? infos.sockets ((infos.cur_send_index + 1) % size)
          (mod-lt _ h.some_socket) in
      let stands : 0 < count (get_service_socket infos "").0 infos.sockets =
        rw (takes_next infos h.some_socket) within in
      (stands, rw (sym (h.agreed.counts (get_service_socket infos "").0)) stands)

  finds :
      (name : String) (infos : RouteServiceInfos) (route : RpcRoute)
      → lookup name route.service_2info ≡ some infos
      → (find_service_socket name "" route).0 ≡ ok (get_service_socket infos "").0
  unfolding find_service_socket
  finds name infos route e = rw (find_service_socket, e)

  -- From a new gateway on, whatever callbacks, rounds of the heart check,
  -- starts and stops came since, the choice for a service that is registered and not bound gives a
  -- socket that stands in the list of the service and under one of its addresses.
  pub registered_service_is_served :
      (events : List RouteEvent) (name : String) (infos : RouteServiceInfos)
      → lookup name (after_events events new_route).service_2info ≡ some infos
      → (socket : ℕ) × ((find_service_socket name "" (after_events events new_route)).0 ≡ ok socket)
        × (0 < count socket infos.sockets)
        × (0 < count_values socket infos.addr_2socket)
  registered_service_is_served events name infos e =
      let route = after_events events new_route in
      let served = after_events-IsServed events new_route new_route-IsServed in
      let here = picked infos (served.entries name infos e) in
      ((get_service_socket infos "").0, finds name infos route e, here.0, here.1)
