-- ===== src/Rpc/Server/Requests.antt =====
-- The work loop of a server: `ParseBinary`, `SendResponse` and what `InitThreads` of
-- src/rpc/server.cpp does with a packet.
pub mod Answered
pub mod Loop
pub mod Queue
pub mod Stops
use frrpc.Prelude.{
  ℕ, Bool, true, false, String, List, [], ◌∷◌, Option, none, some, ltb, ◌==◌, not, if◌then◌else◌,
}
use frrpc.Prelude.Outcome.{Outcome, ok, refused, fault, exhausted, or_fault, or_refuse}
use frrpc.Prelude.Effect.{Effect, pure, refuse, lift, gets, modify, refuse_if, ◌>>=◌, ◌>>◌}
use frrpc.Wire.Messages.{RpcMeta}
use frrpc.Wire.External.{Codec, External}
use frrpc.Wire.Packet.{RpcPacket, event_method}
use frrpc.Net.Base.{Answers}
use frrpc.Net.ServerRoute
use frrpc.Rpc.Controller.{
  ServerController, new_server_controller, request_id_null, link_id_null, failed,
}
use frrpc.Rpc.Server.{Service, RpcMessage, Server, is_completed, get_service_from_name, on_net}

-- A call whose result is only logged.
unfoldable pub logged : {S : Type 0} → Effect S (Unit {0}) → Effect S (Unit {0})
logged m s =
    let (r, after) = m s in
    (elim r [ ok a ↦ ok a | refused ↦ ok tt | fault ↦ fault | exhausted ↦ exhausted ], after)

abbrev pub answer_meta : String → RpcMeta → RpcMeta
answer_meta error meta = record meta {
  rpc_response_meta = record { error = error; failed = failed error };
}

abbrev pub as_message :
    {Request Response : Type 0} → RpcMeta → ℕ → Request → Response → RpcMessage Request Response
as_message meta index request response = record {
  rpc_meta = meta;
  method_descriptor = some index;
  request = some request;
  response = some response;
}

module _ {Request Response : Type 0} where
  -- The service and the message for it. What a refused packet leaves in the message is cleared
  -- before it is used again.
  unfoldable pub parse_binary :
      RpcPacket
      → Effect (Server Request Response) (Service Request Response × RpcMessage Request Response)
  unfolding get_service_from_name is_completed
  parse_binary packet = do
    found ← gets (get_service_from_name packet.rpc_meta.service_name)
    service ← lift (or_refuse found)
    let index = packet.rpc_meta.method_index
    if ltb index service.method_count then pure tt else lift fault
    body ← lift (or_fault packet.binary)
    request ← lift (or_refuse (service.parse_request index body))
    let message = as_message packet.rpc_meta index request (service.new_response index)
    refuse_if (not (is_completed message))
    pure (service, message)

  module _ (ext : External) (answers : Answers) (ok_code : ℕ) (codec : Codec Response) where
    unfoldable pub send_response :
        ServerController → RpcMessage Request Response → Effect (Server Request Response) (Unit {0})
    unfolding is_completed on_net
    send_response cntl message = do
      pointer ← gets (λ server. server.rpc_net)
      net ← lift (or_refuse pointer)
      refuse_if (cntl.link_id == link_id_null)
      refuse_if (not (is_completed message))
      response ← lift (or_refuse message.response)
      on_net (
          ServerRoute.send_one ext answers ok_code codec cntl.link_id
            (answer_meta cntl.error message.rpc_meta) response)

    -- The runs of `done` while the method of a message is called.
    unfoldable pub run_done :
        ServerController
        → RpcMessage Request Response
        → List (String × Response)
        → Effect (Server Request Response) (Unit {0})
    unfolding send_response logged
    run_done cntl message [] = pure tt
    run_done cntl message ((error, response) ∷ runs) = do
      logged (
          send_response (record cntl { error = error })
            (record message { response = some response }))
      run_done cntl message runs

    -- One packet: the event that is handed to the application, if it is no call.
    unfoldable pub serve : RpcPacket → Effect (Server Request Response) (Option ℕ)
    unfolding parse_binary run_done
    serve packet =
        if packet.net_event == event_method
        then (do
          parsed ← parse_binary packet
          let cntl = record new_server_controller { link_id = packet.link_id }
          called ← lift (or_refuse parsed.1.request)
          run_done cntl parsed.1 (parsed.0.call_method packet.rpc_meta.method_index called)
          pure none)
        else pure (some packet.net_event)
