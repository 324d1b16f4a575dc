-- ===== src/Rpc/Server.antt =====
-- `Server` and `RpcMessage` of src/rpc/server.{h,cpp}. The services are generated code and the
-- application's: parameters.
pub mod Requests
use frrpc.Prelude.{
  ℕ, Bool, String, List, [], Option, none, some, ◌==◌, ◌&&◌, not, is_some, string_key,
}
use frrpc.Prelude.Outcome.{or_fault, or_refuse}
use frrpc.Prelude.Effect.{Effect, lift, gets, modify, refuse_if, returns, ◌>>=◌, ◌>>◌}
use frrpc.Prelude.Map.{Map, lookup, contains, insert}
use frrpc.Wire.Bytes.{Bytes}
use frrpc.Wire.Messages.{RpcMeta, empty_meta}
use frrpc.Wire.External.{Codec, External}
use frrpc.Net.Base.{Answers}
use frrpc.Net.ServerRoute.{RpcServerRoute}
use frrpc.Net.ServerRoute
use frrpc.Rpc.Controller.{request_id_null}

-- `parse_request` is `ParseFromArray` of the request prototype of the method at an index, and
-- `call_method` is `CallMethod`: the runs of `done` that it makes before it returns, each with the
-- controller's error text and the response of that moment.
pub record Service (Request Response : Type 0) : Type 0 where
  pub method_count : ℕ
  pub method_index : String → Option ℕ
  pub new_response : ℕ → Response
  pub parse_request : ℕ → Bytes → Option Request
  pub call_method : ℕ → Request → List (String × Response)

module _ (Request Response : Type 0) where
  pub record RpcMessage : Type 0 where
    pub rpc_meta : RpcMeta
    pub method_descriptor : Option ℕ
    pub request : Option Request
    pub response : Option Response

  -- `Clear`
  abbrev pub cleared : RpcMessage
  cleared = record {
    rpc_meta = empty_meta;
    method_descriptor = none;
    request = none;
    response = none;
  }

  pub record Server : Type 0 where
    pub rpc_net : Option RpcServerRoute
    pub service_addr : String
    pub name_2service : Map String (Service Request Response)
    pub compress_type : ℕ

  -- The constructor.
  abbrev pub new_server : String → Server
  new_server service_addr = record {
    rpc_net = none;
    service_addr = service_addr;
    name_2service = [];
    compress_type = 0;
  }

abbrev pub message_meta : String → ℕ → ℕ → RpcMeta
message_meta service_name index compress_type = record empty_meta {
  service_name = service_name;
  method_index = index;
  rpc_request_meta = record { request_id = request_id_null };
  compress_type = compress_type;
}

module _ {Request Response : Type 0} where
  unfoldable pub is_completed : RpcMessage Request Response → Bool
  is_completed message =
      not (message.rpc_meta.rpc_request_meta.request_id == request_id_null)
      && is_some message.method_descriptor
      && is_some message.request
      && is_some message.response

  -- `StartRoute`: what `RpcServer_Route::Start` returned for these gateways.
  unfoldable pub start_route : ℕ → Bool → Effect (Server Request Response) (Unit {0})
  unfolding ServerRoute.new_server
  start_route gates started = do
    modify (λ server. record server { rpc_net = some (ServerRoute.new_server gates) })
    returns started

  unfoldable pub stop : Server Request Response → Server Request Response
  stop server = record server { rpc_net = none }

  unfoldable pub get_service_from_name :
      String → Server Request Response → Option (Service Request Response)
  get_service_from_name service_name server = lookup service_name server.name_2service

  -- A call of a method of `rpc_net_`.
  unfoldable pub on_net :
      (RpcServerRoute → Bool × RpcServerRoute) → Effect (Server Request Response) (Unit {0})
  on_net method = do
    pointer ← gets (λ server. server.rpc_net)
    net ← lift (or_fault pointer)
    let done = method net
    modify (λ server. record server { rpc_net = some done.1 })
    returns done.0

  module _ (ext : External) (answers : Answers) (ok_code : ℕ) (codec : Codec Response) where
    unfoldable pub add_service :
        String → Service Request Response → Effect (Server Request Response) (Unit {0})
    unfolding on_net
    add_service service_name service = do
      exists ← gets (λ server. contains service_name server.name_2service)
      refuse_if exists
      modify (λ server. record server {
        name_2service = insert service_name service server.name_2service;
      })
      addr ← gets (λ server. server.service_addr)
      on_net (ServerRoute.register_service ext answers ok_code service_name addr)

    unfoldable pub disconnect : ℕ → Effect (Server Request Response) (Unit {0})
    unfolding on_net
    disconnect link_id = on_net (ServerRoute.disconnect ext answers ok_code link_id)

    -- `SendRpcMessage` to one link
    unfoldable pub send_rpc_message :
        ℕ → String → String → Response → Effect (Server Request Response) (Unit {0})
    unfolding get_service_from_name on_net
    send_rpc_message link_id service_name method_name response = do
      found ← gets (get_service_from_name service_name)
      service ← lift (or_refuse found)
      index ← lift (or_fault (service.method_index method_name))
      compress_type ← gets (λ server. server.compress_type)
      on_net (
          ServerRoute.send_one ext answers ok_code codec link_id
            (message_meta service_name index compress_type) response)

    -- `SendRpcMessage` to several links
    unfoldable pub send_rpc_messages :
        List ℕ → String → String → Response → Effect (Server Request Response) (Unit {0})
    unfolding get_service_from_name on_net
    send_rpc_messages link_ids service_name method_name response = do
      found ← gets (get_service_from_name service_name)
      service ← lift (or_refuse found)
      index ← lift (or_fault (service.method_index method_name))
      compress_type ← gets (λ server. server.compress_type)
      on_net (
          ServerRoute.send_many ext answers ok_code codec link_ids
            (message_meta service_name index compress_type) response)
