-- ===== src/Route/Services/Second.antt =====
-- A connection with two services, as `Server::AddService` of src/rpc/server.cpp makes it, and the
-- one name that src/route/route.cpp keeps for its socket.
use frrpc.Heart.{del_socket}
use frrpc.Prelude.{
  ℕ, String, ◌≡◌, ◌∙◌, arith, false, some, nat_key, string_key, Option-cases, inl, inr, refl,
}
use frrpc.Prelude.Map.{lookup, contains, lookup-insert, lookup-erase, lookup-update, Map, beq_self}
use frrpc.Prelude.Outcome.{ok}
use frrpc.Route.State.{RpcRoute}
use frrpc.Route.ServiceInfos.{RouteServiceInfos, delete_service_info}
use frrpc.Route.Services.{
  is_service_socket, add_service, delete_service, find_service_socket, drop_or_update,
}
use frrpc.Route.Services.Registry.{registered_is_found}
use frrpc.Route.Receive.{on_disconnect}

lookup-drop_or_update :
    (name key : String) (infos : RouteServiceInfos) (services : Map String RouteServiceInfos)
    → string_key.beq name key ≡ false
    → lookup key (drop_or_update name infos services) ≡ lookup key services
lookup-drop_or_update name key infos services other =
    ground (arith, lookup-erase name key services, lookup-update name key infos services)

-- Deleting the service of a socket leaves every other name as it is.
lookup-delete_service :
    (socket : ℕ) (name key : String) (route : RpcRoute)
    → lookup socket route.service_socket_2name ≡ some name
    → string_key.beq name key ≡ false
    → lookup key (delete_service socket route).1.service_2info ≡ lookup key route.service_2info
unfolding delete_service
lookup-delete_service socket name key route known other =
    elim (Option-cases (lookup name route.service_2info)) [
      | inl missing ↦ rw (delete_service, known, missing) refl
      | inr (infos, found) ↦
          rw (delete_service, known, found)
            (lookup-drop_or_update name key (delete_service_info infos socket) route.service_2info
              other)
    ]

lookup-on_disconnect :
    (socket : ℕ) (name key : String) (route : RpcRoute)
    → lookup socket route.service_socket_2name ≡ some name
    → string_key.beq name key ≡ false
    → lookup key (on_disconnect socket route).service_2info ≡ lookup key route.service_2info
unfolding on_disconnect is_service_socket contains
lookup-on_disconnect socket name key route known other =
    let heard = record route { rpc_heart = del_socket socket route.rpc_heart } in
    rw known (lookup-delete_service socket name key heard known other)

find-lookup :
    (key addr : String) (before after : RpcRoute)
    → lookup key after.service_2info ≡ lookup key before.service_2info
    → (find_service_socket key addr after).0 ≡ (find_service_socket key addr before).0
unfolding find_service_socket
find-lookup key addr before after same = ground arith

keeps_first_name :
    (socket : ℕ) (name key addr : String) (route : RpcRoute)
    → lookup socket route.service_socket_2name ≡ some name
    → lookup socket (add_service socket key addr route).1.service_socket_2name ≡ some name
unfolding add_service
keeps_first_name socket name key addr route known =
    ground (arith, lookup-insert socket socket key route.service_socket_2name, beq_self socket)

-- A socket that is registered for one service and then, under an address that is not empty, for
-- another is still found for the second service after it is disconnected: the gateway deletes it
-- from the first service only.
pub second_service_outlives_socket :
    (socket : ℕ) (name key addr : String) (route : RpcRoute)
    → lookup socket route.service_socket_2name ≡ some name
    → string_key.beq name key ≡ false
    → string_key.beq addr "" ≡ false
    → (add_service socket key addr route).0 ≡ ok tt
    → (find_service_socket key addr (on_disconnect socket (add_service socket key addr route).1)).0
      ≡ ok socket
second_service_outlives_socket socket name key addr route known other addressed added =
    let both = (add_service socket key addr route).1 in
    let first = keeps_first_name socket name key addr route known in
    find-lookup key addr both (on_disconnect socket both)
      (lookup-on_disconnect socket name key both first other)
    ∙ registered_is_found socket key addr route addressed added
