-- ===== src/Net/ServerRoute.antt =====
-- `RpcServer_Route` of src/rpc/net_server.{h,cpp}: a server behind several gateways.
pub mod Several
use frrpc.Prelude.{
  ℕ, zero, suc, Bool, true, false, String, List, [], ◌∷◌, Option, none, some, ◌&&◌, ◌==◌, length,
  get_elem?, if◌then◌else◌, nat_key, ltb,
}
use frrpc.Prelude.Map.{Map, insert}
use frrpc.Wire.Messages.{RpcMeta}
use frrpc.Wire.External.{Codec, External}
use frrpc.Net.LinkId.{get_number_length, get_route_id}
use frrpc.Net.Base.{Client, Answers}
use frrpc.Net.ServerClient

-- The connections in the order of the gateways; the number of each is its route id.
pub record RpcServerRoute : Type 0 where
  pub route_client_list : List Client
  pub route_length : ℕ

unfoldable pub new_clients : ℕ → List Client
new_clients zero = []
new_clients (suc n) = [] ∷ new_clients n

-- The constructor, for a number of gateways.
unfoldable pub new_server : ℕ → RpcServerRoute
unfolding new_clients
new_server routes = record {
  route_client_list = new_clients routes;
  route_length = get_number_length routes;
}

-- A write of one connection.
abbrev pub set_client : List Client → ℕ → Client → List Client
set_client [] i c = []
set_client (x ∷ xs) zero c = c ∷ xs
set_client (x ∷ xs) (suc i) c = x ∷ set_client xs i c

unfoldable pub get_route_client : RpcServerRoute → ℕ → Option Client
get_route_client server link_id =
    get_elem? server.route_client_list (get_route_id server.route_length link_id)

-- `std::set<RouteID>` in its order.
unfoldable pub route_ids : ℕ → List ℕ → Map ℕ (Unit {0})
route_ids route_length [] = []
route_ids route_length (link_id ∷ link_ids) =
    insert (get_route_id route_length link_id) tt (route_ids route_length link_ids)

-- `ok_code` is the value of `eNetSendResult_Ok`, to which the result of a `Send` is compared.
module _ (ext : External) (answers : Answers) (ok_code : ℕ) where
  -- What a method of one connection changes.
  unfoldable pub at_client : RpcServerRoute → ℕ → (Client → Bool × Client) → Bool × RpcServerRoute
  at_client server route_id method = elim (get_elem? server.route_client_list route_id) [
    | none ↦ (false, server)
    | some client ↦
        (let (done, client') = method client in
          (
            done,
            record server {
              route_client_list = set_client server.route_client_list route_id client';
            },
          ))
  ]

  unfoldable pub send_one :
      {M : Type 0} → Codec M → ℕ → RpcMeta → M → RpcServerRoute → Bool × RpcServerRoute
  unfolding at_client
  send_one codec link_id meta body server =
      let route_id = get_route_id server.route_length link_id in
      at_client server route_id
        (ServerClient.send ext answers server.route_length route_id codec (link_id ∷ []) meta body)

  unfoldable pub disconnect : ℕ → RpcServerRoute → Bool × RpcServerRoute
  unfolding at_client
  disconnect link_id server =
      let route_id = get_route_id server.route_length link_id in
      at_client server route_id
        (ServerClient.disconnect ext answers server.route_length route_id link_id)

  abbrev pub as_number : Bool → ℕ
  as_number true = 1
  as_number false = 0

  -- The loop over the route ids; those out of range are passed over.
  unfoldable pub send_routes :
      {M : Type 0}
      → Codec M
      → Map ℕ (Unit {0})
      → List ℕ
      → RpcMeta
      → M
      → Bool
      → RpcServerRoute
      → Bool × RpcServerRoute
  unfolding at_client
  send_routes codec [] link_ids meta body ret server = (ret, server)
  send_routes codec ((route_id, u) ∷ ids) link_ids meta body ret server =
      let (sent, server') =
        at_client server route_id
          (ServerClient.send ext answers server.route_length route_id codec link_ids meta body) in
      let ret' =
        if ltb route_id (length server.route_client_list)
        then ret && (as_number sent == ok_code)
        else ret in
      send_routes codec ids link_ids meta body ret' server'

  abbrev pub is_nonempty : Map ℕ (Unit {0}) → Bool
  is_nonempty [] = false
  is_nonempty (e ∷ es) = true

  unfoldable pub send_many :
      {M : Type 0} → Codec M → List ℕ → RpcMeta → M → RpcServerRoute → Bool × RpcServerRoute
  unfolding send_routes route_ids
  send_many codec link_ids meta body server =
      let ids = route_ids server.route_length link_ids in
      send_routes codec ids link_ids meta body (is_nonempty ids) server

  -- Every connection registers, whatever the others return.
  unfoldable pub register_all : String → String → List Client → Bool × List Client
  register_all name addr [] = (true, [])
  register_all name addr (client ∷ clients) =
      let (done, client') = ServerClient.register_service ext answers name addr client in
      let (rest_done, clients') = register_all name addr clients in
      (done && rest_done, client' ∷ clients')

  unfoldable pub register_service : String → String → RpcServerRoute → Bool × RpcServerRoute
  unfolding register_all
  register_service name addr server =
      let (done, clients) = register_all name addr server.route_client_list in
      (done, record server { route_client_list = clients })
