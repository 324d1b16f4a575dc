-- ===== src/Route/Services.antt =====
-- The registration of services and their look-up in `RpcRoute` of src/route/route.{h,cpp}.
pub mod Binding
pub mod Registry
pub mod Held
pub mod Second
use frrpc.Prelude.{
  ℕ, String, Bool, [], Option, none, some, ◌==◌, length, if◌then◌else◌, nat_key, string_key,
}
use frrpc.Prelude.Map.{Map, lookup, contains, insert, erase, update}
use frrpc.Prelude.Outcome.{ok, refused}
use frrpc.Prelude.Effect.{Effect}
use frrpc.Route.ServiceInfos.{
  RouteServiceInfos, socket_null, new_infos, get_service_socket, add_service_info,
  delete_service_info,
}
use frrpc.Route.State.{RpcRoute}

unfoldable pub is_service_socket : RpcRoute → ℕ → Bool
is_service_socket route socket = contains socket route.service_socket_2name

-- The object that `service_2info_iter->second` points to, after the entry is made if need be.
abbrev pub infos_or_new : String → Option RouteServiceInfos → RouteServiceInfos
infos_or_new name none = new_infos name
infos_or_new name (some infos) = infos

unfoldable pub add_service : ℕ → String → String → Effect RpcRoute (Unit {0})
add_service socket name addr route =
    let services = insert name (new_infos name) route.service_2info in
    let (added, infos) =
      add_service_info (infos_or_new name (lookup name route.service_2info)) socket addr in
    (
      if added then ok tt else refused,
      record route {
        service_socket_2name = insert socket name route.service_socket_2name;
        service_2info = update name infos services;
      },
    )

-- The service's entry after its socket is gone: erased when no socket is left.
abbrev pub drop_or_update :
    String → RouteServiceInfos → Map String RouteServiceInfos → Map String RouteServiceInfos
drop_or_update name infos services =
    if length infos.sockets == 0 then erase name services else update name infos services

unfoldable pub delete_service : ℕ → Effect RpcRoute (Unit {0})
delete_service socket route = elim (lookup socket route.service_socket_2name) [
  | none ↦ (refused, route)
  | some name ↦ elim (lookup name route.service_2info) [
    | none ↦ (refused, route)
    | some infos ↦ (
      ok tt,
      record route {
        service_2info = drop_or_update name (delete_service_info infos socket) route.service_2info;
        service_socket_2name = erase socket route.service_socket_2name;
      },
    )
  ]
]

-- Without an address it moves the index of the service.
unfoldable pub find_service_socket : String → String → Effect RpcRoute ℕ
find_service_socket name addr route = elim (lookup name route.service_2info) [
  | none ↦ (ok socket_null, route)
  | some infos ↦
      (let (socket, moved) = get_service_socket infos addr in
        (ok socket, record route { service_2info = update name moved route.service_2info }))
]

-- The service that the channel is bound to under a name.
unfoldable pub bound_socket : RpcRoute → ℕ → String → Option ℕ
bound_socket route channel name = elim (lookup channel route.channel_service_register) [
  | none ↦ none
  | some names ↦ lookup name names
]

unfoldable pub get_server_socket : ℕ → String → Effect RpcRoute ℕ
unfolding find_service_socket bound_socket
get_server_socket channel name route = elim (bound_socket route channel name) [
  | some socket ↦ (ok socket, route)
  | none ↦ find_service_socket name "" route
]

-- The map of the channel, after the entry is made if need be.
abbrev pub names_or_new : Option (Map String ℕ) → Map String ℕ
names_or_new none = []
names_or_new (some names) = names

-- `insert`s: a channel that is bound under the name stays bound as it was.
unfoldable pub bind_channel : ℕ → String → ℕ → RpcRoute → RpcRoute
bind_channel channel name server route =
    let names = names_or_new (lookup channel route.channel_service_register) in
    let channels = insert channel [] route.channel_service_register in
    record route { channel_service_register = update channel (insert name server names) channels }
