-- ===== src/Rpc/Server/Requests/Answered.antt =====
-- Which packets a server answers, and with what.
use frrpc.Prelude.{ℕ, ◌≡◌, ◌≢◌, ◌<◌, List, [], ◌∷◌, String, some, none, arith, string_key, ◌⊎◌}
use frrpc.Prelude.Effect.{◌>>=◌}
use frrpc.Prelude.Outcome.{ok, refused}
use frrpc.Prelude.Map.{lookup}
use frrpc.Wire.Bytes.{Bytes}
use frrpc.Wire.Messages.{RpcMeta}
use frrpc.Wire.External.{External, Codec}
use frrpc.Wire.Packet.{RpcPacket, event_method}
use frrpc.Net.Base.{Answers}
use frrpc.Net.ServerRoute.{RpcServerRoute, send_one}
use frrpc.Rpc.Server.{Server, Service, is_completed, get_service_from_name, on_net}
use frrpc.Rpc.Controller.{new_server_controller}
use frrpc.Rpc.Server.Requests.{
  parse_binary, send_response, run_done, serve, logged, as_message, answer_meta,
}

module _ {Response : Type 0} (ext : External) (answers : Answers) (ok_code : ℕ)
    (codec : Codec Response) where
  -- One message for each run of `done`, to the link that the request came from.
  unfoldable pub sent_answers :
      ℕ → RpcMeta → List (String × Response) → RpcServerRoute → RpcServerRoute
  sent_answers link_id meta [] net = net
  sent_answers link_id meta ((error, response) ∷ runs) net =
      sent_answers link_id meta runs
        (send_one ext answers ok_code codec link_id (answer_meta error meta) response net).1

module _ {Request Response : Type 0} (ext : External) (answers : Answers) (ok_code : ℕ)
    (codec : Codec Response) where
  run_done-answers :
      (link_id index : ℕ) (meta : RpcMeta) (request : Request) (before : Response)
      (runs : List (String × Response)) (net : RpcServerRoute) (server : Server Request Response)
      → meta.rpc_request_meta.request_id ≢ 0
      → link_id ≢ 0
      → server.rpc_net ≡ some net
      → run_done ext answers ok_code codec
          (record new_server_controller { link_id = link_id })
          (as_message meta index request before)
          runs
          server
        ≡ (
          ok tt,
          record server {
            rpc_net = some (sent_answers ext answers ok_code codec link_id meta runs net);
          },
        )
  unfolding run_done send_response logged is_completed on_net sent_answers ◌>>=◌
  run_done-answers link_id index meta request before [] net server i l e = ground arith
  run_done-answers link_id index meta request before ((error, response) ∷ runs) net server i l e =
      ground (
        arith,
        run_done-answers link_id index meta request before runs
            (send_one ext answers ok_code codec link_id (answer_meta error meta) response net).1
            (record server {
              rpc_net =
                  some
                    (send_one ext answers ok_code codec link_id (answer_meta error meta) response
                      net).1;
            })
            i l,
      )

  -- A server with a connection gets a call over a link that is not 0, for a method, with its index
  -- in range, of a service that was added, with a request id that is not 0 and a body that parses.
  -- Then each time the method runs `done`, one message goes to this link, with the meta of the
  -- call, so with its request id, the error text of the controller, whether it failed, and the
  -- response. Nothing else about the server changes.
  pub request_is_answered :
      (packet : RpcPacket) (server : Server Request Response) (net : RpcServerRoute)
      (service : Service Request Response) (body : Bytes) (request : Request)
      → packet.net_event ≡ event_method
      → packet.link_id ≢ 0
      → packet.rpc_meta.rpc_request_meta.request_id ≢ 0
      → lookup packet.rpc_meta.service_name server.name_2service ≡ some service
      → packet.rpc_meta.method_index < service.method_count
      → packet.binary ≡ some body
      → service.parse_request packet.rpc_meta.method_index body ≡ some request
      → server.rpc_net ≡ some net
      → serve ext answers ok_code codec packet server ≡ (
        ok none,
        record server {
          rpc_net = some (
              sent_answers ext answers ok_code codec packet.link_id packet.rpc_meta
                (service.call_method packet.rpc_meta.method_index request)
                net);
        },
      )
  unfolding serve parse_binary get_service_from_name is_completed ◌>>=◌
  request_is_answered packet server net service body request event link id known method has_body
        parsed started =
      ground (
        arith,
        run_done-answers packet.link_id packet.rpc_meta.method_index packet.rpc_meta request
            (service.new_response packet.rpc_meta.method_index)
            (service.call_method packet.rpc_meta.method_index request) net server id link started,
      )

  -- A call for a method, with its index in range, of a service that was added, with a body that
  -- does not parse or with the request id 0, is refused, and nothing is sent.
  pub bad_request_is_refused :
      (packet : RpcPacket) (server : Server Request Response) (service : Service Request Response)
      (body : Bytes)
      → packet.net_event ≡ event_method
      → lookup packet.rpc_meta.service_name server.name_2service ≡ some service
      → packet.rpc_meta.method_index < service.method_count
      → packet.binary ≡ some body
      → (service.parse_request packet.rpc_meta.method_index body ≡ none)
        ⊎ (packet.rpc_meta.rpc_request_meta.request_id ≡ 0)
      → serve ext answers ok_code codec packet server ≡ (refused, server)
  unfolding serve parse_binary get_service_from_name is_completed ◌>>=◌
  bad_request_is_refused packet server service body event known method has_body bad = ground arith
