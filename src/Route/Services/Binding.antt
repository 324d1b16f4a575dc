-- ===== src/Route/Services/Binding.antt =====
-- Channels bound to a service, and the sockets that are gone.
use frrpc.Prelude.{
  ℕ, String, ◌≡◌, arith, true, false, none, some, nat_key, string_key, if◌then◌else◌, [],
}
use frrpc.Prelude.Map.{
  lookup, insert, keep_old, lookup-insert, lookup-erase, lookup-update-insert, lookup-nil,
}
use frrpc.Prelude.Outcome.{ok}
use frrpc.Route.State.{RpcRoute}
use frrpc.Route.Services.{
  is_service_socket, delete_service, bound_socket, get_server_socket, bind_channel, names_or_new,
}
use frrpc.Route.Receive.{on_disconnect}

-- Binding a channel under a name: it takes the server if the channel is not bound under that name,
-- and leaves the binding as it is otherwise. Every other binding, of this channel or of another,
-- stays.
pub bound_socket-bind :
    (channel other : ℕ) (name key : String) (server : ℕ) (route : RpcRoute)
    → bound_socket (bind_channel channel name server route) other key ≡ (
        if nat_key.beq channel other
        then (if string_key.beq name key
            then some (keep_old (bound_socket route channel name) server)
            else bound_socket route channel key)
        else bound_socket route other key)
unfolding bound_socket bind_channel
bound_socket-bind channel other name key server route =
    let names = names_or_new (lookup channel route.channel_service_register) in
    rw
      (
        lookup-update-insert channel other (insert name server names) []
            route.channel_service_register,
        bound_socket,
      )
      (ground (arith, lookup-insert name key server names, lookup-nil ℕ name, lookup-nil ℕ key))

-- A service that is lost stays the target of every channel that is bound to it: after its socket
-- is disconnected the gateway still picks that socket for those channels.
pub lost_service_stays_bound :
    (channel socket : ℕ) (name : String) (route : RpcRoute)
    → is_service_socket route socket ≡ true
    → bound_socket route channel name ≡ some socket
    → (get_server_socket channel name (on_disconnect socket route)).0 ≡ ok socket
unfolding get_server_socket on_disconnect delete_service bound_socket is_service_socket
lost_service_stays_bound channel socket name route h b = ground arith

-- A socket that is lost and is no service's is bound to nothing, and every other socket keeps its
-- bindings.
pub lost_channel_is_unbound :
    (channel other : ℕ) (name : String) (route : RpcRoute)
    → is_service_socket route channel ≡ false
    → bound_socket (on_disconnect channel route) other name
      ≡ (if nat_key.beq channel other then none else bound_socket route other name)
unfolding on_disconnect bound_socket is_service_socket
lost_channel_is_unbound channel other name route h =
    ground (arith, lookup-erase channel other route.channel_service_register)
