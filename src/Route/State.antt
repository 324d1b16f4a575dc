-- ===== src/Route/State.antt =====
-- The state of `RpcRoute` of src/route/route.{h,cpp}, and what it takes from frnet. The methods run
-- one at a time, as under their locks.
use frrpc.Prelude.{ℕ, String, Bool, List, [], ◌∷◌, ◌++◌, Option}
use frrpc.Prelude.Map.{Map}
use frrpc.Prelude.Effect.{Effect}
use frrpc.Prelude.Outcome.{ok}
use frrpc.Wire.Bytes.{Bytes}
use frrpc.Heart.{RpcHeart, new_heart}
use frrpc.Route.ServiceInfos.{RouteServiceInfos}

-- The calls of `net_server_`, oldest first. A null packet is `none`.
pub data NetCall : Type 0 where
  send : ℕ → Option Bytes → NetCall
  disconnect : ℕ → NetCall

-- Whether `Send` returns `eNetSendResult_Ok`, after the calls so far.
abbrev pub Network : Type 0
Network = List NetCall → ℕ → Option Bytes → Bool

pub record RpcRoute : Type 0 where
  pub net_server : List NetCall
  pub rpc_heart : RpcHeart
  pub service_2info : Map String RouteServiceInfos
  pub service_socket_2name : Map ℕ String
  pub channel_service_register : Map ℕ (Map String ℕ)
  pub event_dis_notice_2listen : Map ℕ (List ℕ)
  pub event_dis_listen_2notice : Map ℕ (List ℕ)

abbrev pub new_route : RpcRoute
new_route = record {
  net_server = [];
  rpc_heart = new_heart;
  service_2info = [];
  service_socket_2name = [];
  channel_service_register = [];
  event_dis_notice_2listen = [];
  event_dis_listen_2notice = [];
}

-- `net_server_->Send(socket, packet) == eNetSendResult_Ok`
unfoldable pub send_to : Network → ℕ → Option Bytes → Effect RpcRoute Bool
send_to network socket packet route = (
  ok (network route.net_server socket packet),
  record route { net_server = route.net_server ++ send socket packet ∷ [] },
)

unfoldable pub disconnect_socket : ℕ → Effect RpcRoute (Unit {0})
disconnect_socket socket route =
    (ok tt, record route { net_server = route.net_server ++ disconnect socket ∷ [] })
